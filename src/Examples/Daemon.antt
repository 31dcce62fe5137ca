-- ===== src/Examples/Daemon.antt =====
-- The daemon and the single command of bin/veiled_core.rs over a toy form of JSON: a line that begins
-- with `!` is no JSON, and every other line is a command without parameters.
use veiled.Prelude.{
  ◌≡◌, refl, true, List, [], ◌∷◌, ◌++◌, none, some, map, Bytes, codes, is_blank, ◌==◌,
  if◌then◌else◌, get_or, list_eq, nat_eq,
}
use veiled.Crypto.Toy.{toy, unit}
use veiled.Commands.Json.{Serde, invalid_json, internal_panic, failed}
use veiled.Commands.Dispatch.{Draws, Turn, dispatch, caught, respond, daemon}
use veiled.Commands.Daemon.{requests, AllServed, unread, skipped, answered, daemon-answers}
use veiled.Examples.Commands.{plain, one_address, secret}
use veiled.Examples.Data.{nonces}

instance abbrev toy_json : Serde
toy_json = record {
  Value = Bytes;
  command = λ line. if get_or line 0 0 == b'!' then none else some (line, []);
  build_crs = λ v. none;
  create_credential = λ v. none;
  register_locally = λ v. none;
  create_payment_id = λ v. none;
  receive_payment_id = λ v. none;
  create_payment_request = λ v. none;
  verify_payment_request = λ v. none;
  pseudonym_to_address = λ v. none;
  response = λ r. codes "ok";
  failure = λ f. elim f [
    | failed e ↦ codes "failed"
    | invalid_json ↦ codes "json"
    | internal_panic ↦ codes "panic"
  ];
}

abbrev draws : Draws
draws = record { sk = secret; r = secret; k = secret; nonces = nonces; t = unit }

abbrev turn_of : Bytes → Turn
turn_of line = record { line = some line; draws = draws; writable = true }

abbrev three : List Turn
three = turn_of (codes "ping") ∷ (turn_of (codes "  ") ∷ (turn_of (codes "!") ∷ []))

abbrev lost : List Turn
lost = record { line = none; draws = draws; writable = true } ∷ three

three-AllServed : AllServed three
unfolding is_blank
three-AllServed = (
  answered (codes "ping") refl refl,
  (skipped (codes "  ") refl refl, (answered (codes "!") refl refl, tt)),
)

daemon-answers_example : daemon 1 (three ++ lost) ≡ map (λ r. respond 1 r.0 r.1) (requests three)
daemon-answers_example = daemon-answers 1 three lost three-AllServed (unread _ three refl)

-- Two answers: to the ping and to the text that is no JSON.
daemon_test : daemon 1 (three ++ lost) ≡ codes "ok" ∷ (codes "json" ∷ [])
unfolding daemon is_blank respond dispatch caught
daemon_test = refl
