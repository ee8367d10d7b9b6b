-- ===== src/Daemon/Framing.antt =====
-- The line framing of handleData in sdk/security/boundary-daemon.ts does not depend on how the
-- socket cuts its data.
use ilr_module.Prelude.{
  ℕ, ◌≡◌, refl, sym, ap, ◌∙◌, List, [], ◌∷◌, ◌++◌, false, Bool-cases, inl, inr, ◌==◌, if◌then◌else◌,
  Option, none, some, length,
}
use mathlib.Core.List.{append_assoc, append-nil}
use ilr_module.Prelude.Text.{Text}
use ilr_module.Daemon.Protocol.{
  DaemonMessage, Effect, Protocol, Step, Lines, push_char, split_lines, MessageType, settle,
  handle_typed, handle_message, handle_parsed, handle_line, handle_lines, handle_data, request,
  response, event, other_type, RequestId, is_pending,
}
use ilr_module.Hex.{join, trim_start}

-- Lines after lines, with what is left of the later ones.
after_lines : List Text → Lines → Lines
after_lines ls lines = record { complete = ls ++ lines.complete; rest = lines.rest }

step_lines : ℕ → Lines → Lines
step_lines c lines =
    if c == 10
    then record { complete = [] ∷ lines.complete; rest = lines.rest }
    else push_char c lines.complete lines.rest

split_lines-cons : (c : ℕ) (t : Text) → split_lines (c ∷ t) ≡ step_lines c (split_lines t)
unfolding split_lines step_lines
split_lines-cons c t = refl

step-after_lines :
    (c : ℕ) (complete : List Text) (rest b : Text)
    → step_lines c (after_lines complete (split_lines (rest ++ b)))
      ≡ after_lines
          (step_lines c (record { complete = complete; rest = rest })).complete
          (split_lines ((step_lines c (record { complete = complete; rest = rest })).rest ++ b))
unfolding step_lines after_lines split_lines
step-after_lines c complete rest b = elim (Bool-cases (c == 10)) [
  | inl newline ↦ simp newline
  | inr other ↦ pushed complete other
]
  where
    pushed :
        (ls : List Text)
        → (c == 10) ≡ false
        → step_lines c (after_lines ls (split_lines (rest ++ b)))
          ≡ after_lines
              (step_lines c (record { complete = ls; rest = rest })).complete
              (split_lines ((step_lines c (record { complete = ls; rest = rest })).rest ++ b))
    pushed [] other = simp other
    pushed (l ∷ ls) other = simp other

-- What is split off first may be split off before the rest arrives.
split_lines-append :
    (a b : Text)
    → split_lines (a ++ b)
      ≡ after_lines (split_lines a).complete (split_lines ((split_lines a).rest ++ b))
unfolding after_lines split_lines step_lines
split_lines-append [] b = refl
split_lines-append (c ∷ a) b =
    ap (step_lines c) (split_lines-append a b)
    ∙ step-after_lines c (split_lines a).complete (split_lines a).rest b

-- The state with another buffer.
with_buffer : Text → Step → Step
with_buffer buffer s = record s { after = record s.after { message_buffer = buffer } }

settle-buffer :
    (id : Option RequestId) (payload buffer : Text) (s : Protocol)
    → settle id payload (record s { message_buffer = buffer })
      ≡ with_buffer buffer (settle id payload s)
unfolding settle with_buffer
settle-buffer none payload buffer s = refl
settle-buffer (some id) payload buffer s = elim (Bool-cases (is_pending id s.pending)) [
  | inl is ↦ simp is
  | inr not ↦ simp not
]

handle_typed-buffer :
    (t : MessageType) (message : DaemonMessage) (buffer : Text) (s : Protocol)
    → handle_typed t message (record s { message_buffer = buffer })
      ≡ with_buffer buffer (handle_typed t message s)
unfolding handle_typed with_buffer
handle_typed-buffer response message buffer s = settle-buffer message.id message.payload buffer s
handle_typed-buffer event message buffer s = refl
handle_typed-buffer request message buffer s = refl
handle_typed-buffer other_type message buffer s = refl

-- What a step does, and then another from where it ends.
then_step : Step → Step → Step
then_step first rest = record { after = rest.after; effects = first.effects ++ rest.effects }

module _ (parse : Text → Option DaemonMessage) where
  handle_parsed-buffer :
      (line buffer : Text) (message : Option DaemonMessage) (s : Protocol)
      → handle_parsed parse line message (record s { message_buffer = buffer })
        ≡ with_buffer buffer (handle_parsed parse line message s)
  unfolding handle_parsed handle_message with_buffer
  handle_parsed-buffer line buffer none s = refl
  handle_parsed-buffer line buffer (some m) s = handle_typed-buffer m.message_type m buffer s

  -- The lines are handled with the buffer put aside.
  handle_line-buffer :
      (line buffer : Text) (s : Protocol)
      → handle_line parse line (record s { message_buffer = buffer })
        ≡ with_buffer buffer (handle_line parse line s)
  unfolding handle_line with_buffer
  handle_line-buffer line buffer s = elim (Bool-cases (length (trim_start line) == 0)) [
    | inl blank ↦ simp blank
    | inr full ↦ simp full (handle_parsed-buffer line buffer (parse line) s)
  ]

  handle_lines-append :
      (ls ms : List Text) (s : Protocol)
      → handle_lines parse (ls ++ ms) s ≡ record {
        after = (handle_lines parse ms (handle_lines parse ls s).after).after;
        effects =
            (handle_lines parse ls s).effects
            ++ (handle_lines parse ms (handle_lines parse ls s).after).effects;
      }
  unfolding handle_lines then_step
  handle_lines-append [] ms s = refl
  handle_lines-append (l ∷ ls) ms s =
      let first = handle_line parse l s in
      ap (then_step first) (handle_lines-append ls ms first.after)
      ∙ ap
          (λ (es : List Effect). record {
            after = (handle_lines parse ms (handle_lines parse ls first.after).after).after;
            effects = es;
          })
          (sym (append_assoc first.effects _ _))

  handle_lines-buffer :
      (ls : List Text) (buffer : Text) (s : Protocol)
      → handle_lines parse ls (record s { message_buffer = buffer })
        ≡ with_buffer buffer (handle_lines parse ls s)
  unfolding handle_lines with_buffer then_step
  handle_lines-buffer [] buffer s = refl
  handle_lines-buffer (l ∷ ls) buffer s =
      let first = handle_line parse l s in
      ap (λ (f : Step). then_step f (handle_lines parse ls f.after)) (handle_line-buffer l buffer s)
      ∙ ap (then_step first) (handle_lines-buffer ls buffer first.after)

  -- The chunks of data that the socket gives, one after the other.
  unfoldable pub handle_chunks : List Text → Protocol → Step
  unfolding handle_data
  handle_chunks [] s = record { after = s; effects = [] }
  handle_chunks (chunk ∷ chunks) s =
      let first = handle_data parse chunk s in
      let rest = handle_chunks chunks first.after in
      record { after = rest.after; effects = first.effects ++ rest.effects }

  handle_data-append :
      (a b : Text) (s : Protocol)
      → then_step (handle_data parse a s) (handle_data parse b (handle_data parse a s).after)
        ≡ handle_data parse (a ++ b) s
  unfolding handle_data then_step with_buffer after_lines
  handle_data-append a b s =
      let one = split_lines (s.message_buffer ++ a) in
      let two = split_lines (one.rest ++ b) in
      let u = handle_lines parse one.complete s in
      let split : split_lines (s.message_buffer ++ (a ++ b)) ≡ after_lines one.complete two =
        ap split_lines (sym (append_assoc s.message_buffer a b))
        ∙ split_lines-append (s.message_buffer ++ a) b in
      ap (λ (f : Step). then_step f (handle_data parse b f.after))
        (handle_lines-buffer one.complete one.rest s)
      ∙ sym (
          ap (λ (l : Lines). handle_lines parse l.complete (record s { message_buffer = l.rest }))
            split
          ∙ handle_lines-append one.complete two.complete (record s { message_buffer = two.rest })
          ∙ ap (λ (f : Step). then_step f (handle_lines parse two.complete f.after))
              (handle_lines-buffer one.complete two.rest s))

  -- Data that arrives in any chunks has the same effects, in the same order, and leaves the same
  -- requests and the same buffer, as if it arrived at once.
  pub handle_chunks-join :
      (chunk : Text) (chunks : List Text) (s : Protocol)
      → handle_chunks (chunk ∷ chunks) s ≡ handle_data parse (chunk ++ join chunks) s
  unfolding handle_chunks join then_step
  handle_chunks-join chunk [] s =
      let one = handle_data parse chunk s in
      ap (λ (es : List Effect). record { after = one.after; effects = es }) (append-nil one.effects)
      ∙ ap (λ t. handle_data parse t s) (sym (append-nil chunk))
  handle_chunks-join chunk (next ∷ chunks) s =
      ap (then_step (handle_data parse chunk s))
        (handle_chunks-join next chunks (handle_data parse chunk s).after)
      ∙ handle_data-append chunk (join (next ∷ chunks)) s
