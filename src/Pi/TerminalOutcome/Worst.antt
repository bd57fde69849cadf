-- ===== src/Pi/TerminalOutcome/Worst.antt =====
-- The derived outcome is the worst one observed, in whatever order the messages came.
use observ_me.Prelude.{
  ◌≡◌, refl, ◌∙◌, ap, Bool, true, false, ◌||◌, Option, none, some, List, [], ◌∷◌, arith,
  if◌then◌else◌, or_default, any,
}
use observ_me.Pi.TerminalOutcome.{
  TerminalOutcome, ok, error, cancelled, unknown, Message, derive_single_message_outcome,
  merge_terminal_outcome, observe, derive_from, derive_message_outcome,
}

abbrev shows : TerminalOutcome → Option TerminalOutcome → Bool
shows ok (some ok) = true
shows error (some error) = true
shows cancelled (some cancelled) = true
shows unknown (some unknown) = true
shows _ _ = false

-- Some message shows this outcome.
abbrev pub is_observed : TerminalOutcome → List (Option Message) → Bool
is_observed o ms = any (λ m. shows o (derive_single_message_outcome m)) ms

-- The worst of an outcome and those of the messages, looked for from the worst down.
abbrev worst_with : Option TerminalOutcome → List (Option Message) → Option TerminalOutcome
worst_with acc ms =
    if shows error acc || is_observed error ms
    then some error
    else if shows cancelled acc || is_observed cancelled ms
    then some cancelled
    else if shows unknown acc || is_observed unknown ms
    then some unknown
    else if shows ok acc || is_observed ok ms
    then some ok
    else none

step-worst :
    (acc o : Option TerminalOutcome) (e c u k : Bool)
    → (if shows error (observe acc o) || e
        then some error
        else if shows cancelled (observe acc o) || c
        then some cancelled
        else if shows unknown (observe acc o) || u
        then some unknown
        else if shows ok (observe acc o) || k
        then some ok
        else none)
      ≡ (if shows error acc || (shows error o || e)
          then some error
          else if shows cancelled acc || (shows cancelled o || c)
          then some cancelled
          else if shows unknown acc || (shows unknown o || u)
          then some unknown
          else if shows ok acc || (shows ok o || k)
          then some ok
          else none)
unfolding merge_terminal_outcome
step-worst acc none e c u k = ground arith
step-worst none (some o) e c u k = ground arith
step-worst (some ok) (some o) e c u k = ground arith
step-worst (some error) (some o) e c u k = ground arith
step-worst (some cancelled) (some o) e c u k = ground arith
step-worst (some unknown) (some o) e c u k = ground arith

derive_from-worst :
    (acc : Option TerminalOutcome) (ms : List (Option Message))
    → derive_from acc ms ≡ worst_with acc ms
unfolding derive_from
derive_from-worst none [] = refl
derive_from-worst (some ok) [] = refl
derive_from-worst (some error) [] = refl
derive_from-worst (some cancelled) [] = refl
derive_from-worst (some unknown) [] = refl
derive_from-worst acc (m ∷ ms) =
    derive_from-worst (observe acc (derive_single_message_outcome m)) ms
    ∙ step-worst acc (derive_single_message_outcome m) (is_observed error ms)
        (is_observed cancelled ms) (is_observed unknown ms) (is_observed ok ms)

-- The outcome of the messages is `error` if any shows an error, else `cancelled` if any shows that,
-- else `unknown` if any shows that or none shows an outcome, else `ok`: the order of the messages
-- and how often each stands there have no part in it.
pub derive_message_outcome_lem :
    (ms : List (Option Message))
    → derive_message_outcome ms ≡ (
        if is_observed error ms
        then error
        else if is_observed cancelled ms
        then cancelled
        else if is_observed unknown ms
        then unknown
        else if is_observed ok ms
        then ok
        else unknown)
unfolding derive_message_outcome
derive_message_outcome_lem ms =
    ap (λ o. or_default o unknown) (derive_from-worst none ms) ∙ (ground arith)
