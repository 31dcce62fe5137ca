-- ===== src/Commands/Daemon.antt =====
-- The daemon loop of bin/veiled_core.rs over whole sequences of lines, beside the single command.
use veiled.Prelude.{
  sym, subst, arith, Option-cases, ◌↔◌, ℕ, ◌≡◌, refl, ap, Bool-cases, true, false, List, [], ◌∷◌,
  ◌++◌, map, Option, none, some, inl, inr, Bytes, is_blank, if◌then◌else◌, ok,
}
use veiled.Prelude.{ℕ, ◌↔◌, Option-cases, outcome_cases, arith}
use veiled.Hex.{Hex}
use veiled.Commands.Json.{failed, invalid_json, Response}
use veiled.Crypto.{Crypto}
use veiled.Request.Address.{Addresses}
use veiled.Commands.Json.{Response, Serde, internal_panic}
use veiled.Commands.Dispatch.{Draws, Turn, dispatch, caught, respond, daemon, single}

module _ ⦃c : Crypto⦄ where
  -- The turns whose line is read and is not blank: what the daemon is asked.
  pub requests : List Turn → List (Draws × Bytes)
  requests [] = []
  requests (turn ∷ turns) =
      let rest = requests turns in
      elim turn.line [
        | none ↦ rest
        | some line ↦ if is_blank line then rest else (turn.draws, line) ∷ rest
      ]

  -- A turn after which the loop goes on.
  pub data IsServed (turn : Turn) : Type 0 where
    skipped : (line : Bytes) → turn.line ≡ some line → is_blank line ≡ true → IsServed turn
    answered : (line : Bytes) → turn.line ≡ some line → turn.writable ≡ true → IsServed turn

  abbrev pub AllServed : List Turn → Type 0
  AllServed [] = Unit
  AllServed (turn ∷ turns) = IsServed turn × AllServed turns

  -- Where the loop ends: stdin ends, a line cannot be read, or an answer cannot be written.
  pub data IsEnd : List Turn → Type 0 where
    eof : IsEnd []
    unread : (turn : Turn) (rest : List Turn) → turn.line ≡ none → IsEnd (turn ∷ rest)
    unwritten :
        (turn : Turn) (rest : List Turn) (line : Bytes)
        → turn.line ≡ some line
        → is_blank line ≡ false
        → turn.writable ≡ false
        → IsEnd (turn ∷ rest)

module _ ⦃c : Crypto⦄ ⦃x : Hex⦄ ⦃a : Addresses⦄ ⦃j : Serde⦄ where
  daemon-end : (dim : ℕ) (turns : List Turn) → IsEnd turns → daemon dim turns ≡ []
  unfolding daemon
  daemon-end dim [] eof = refl
  daemon-end dim (turn ∷ rest) (unread _ _ e) = rw e refl
  daemon-end dim (turn ∷ rest) (unwritten _ _ line e n w) = rw (e, n, w) refl

  -- The daemon goes on until stdin ends, a line cannot be read or an answer cannot be written. Until
  -- then it writes one answer for each line that is not blank, in the order of the lines: the answer
  -- of the command, its error or its panic, which depend on that line and its random values only.
  pub daemon-answers :
      (dim : ℕ) (served end : List Turn)
      → AllServed served
      → IsEnd end
      → daemon dim (served ++ end) ≡ map (λ r. respond dim r.0 r.1) (requests served)
  unfolding daemon requests
  daemon-answers dim [] end h e = daemon-end dim end e
  daemon-answers dim (turn ∷ served) end (skipped line l b, h) e =
      rw (l, b) (daemon-answers dim served end h e)
  daemon-answers dim (turn ∷ served) end (answered line l w, h) e =
      elim (Bool-cases (is_blank line)) [
        | inl b ↦ rw (l, b) (daemon-answers dim served end h e)
        | inr b ↦
            rw (l, b, w)
              (ap (◌∷◌ (respond dim turn.draws line)) (daemon-answers dim served end h e))
      ]

  -- The text is a command that succeeds.
  pub Succeeds : ℕ → Draws → Bytes → Type 0
  Succeeds dim d input =
      (name : Bytes) × ((params : j.Value) × ((v : Response) × ((j.command input
              ≡ some (name, params))
            × (dispatch dim d name params ≡ ok v))))

  -- What the single command printed, with its exit code, beside the answer of the daemon.
  pub Agrees : ℕ → Draws → Bytes → Option (Bytes × ℕ) → Type 0
  Agrees dim d input none = respond dim d input ≡ j.failure internal_panic
  Agrees dim d input (some (out, code)) =
      (respond dim d input ≡ out) × ((code ≡ 0) ↔ Succeeds dim d input)

  single-command :
      (dim : ℕ) (d : Draws) (input name : Bytes) (params : j.Value)
      → j.command input ≡ some (name, params)
      → Agrees dim d input (single dim d input)
  unfolding single respond caught Succeeds Agrees
  single-command dim d input name params e = elim (outcome_cases (dispatch dim d name params)) [
    | inl (v, o) ↦
        let s : single dim d input ≡ some (j.response v, 0) = rw (single, e, o) refl in
        subst (Agrees dim d input) (sym s)
          (rw (respond, e, o) refl, (λ h. (name, (params, (v, (e, o)))), λ h. refl))
    | inr (inl (x, o)) ↦
        let s : single dim d input ≡ some (j.failure (failed x), 1) = rw (single, e, o) refl in
        subst (Agrees dim d input) (sym s) (
          rw (respond, e, o) refl,
          (λ h. absurd (omega arith), λ (n, (ps, (v, (e1, o1)))). absurd cc),
        )
    | inr (inr o) ↦
        let s : single dim d input ≡ none = rw (single, e, o) refl in
        subst (Agrees dim d input) (sym s) (rw (respond, e, o) refl)
  ]

  -- The single command prints what the daemon answers to the same text, with exit code 0 exactly when
  -- the text is a command that succeeds; where it panics and prints nothing, the daemon answers
  -- that an internal panic occurred.
  pub single-respond :
      (dim : ℕ) (d : Draws) (input : Bytes) → Agrees dim d input (single dim d input)
  unfolding single respond Succeeds Agrees
  single-respond dim d input = elim (Option-cases (j.command input)) [
    | inl e ↦
        let s : single dim d input ≡ some (j.failure invalid_json, 1) = rw (single, e) refl in
        subst (Agrees dim d input) (sym s)
          (rw (respond, e) refl, (λ h. absurd (omega arith), λ (n, (ps, (v, (e1, o1)))). absurd cc))
    | inr ((name, params), e) ↦ single-command dim d input name params e
  ]
