-- ===== src/Tests/Stores.antt =====
-- The state store (internal/persistence/state.go) on a small directory.
use cannectors.Prelude.{
  ℕ, zero, suc, ap, sym, ◌∙◌, ◌≡◌, refl, Bool, false, Option, none, some, [], ◌∷◌, Text, codes,
  same, if◌then◌else◌, ok,
}
use cannectors.Persistence.Config.{State}
use cannectors.Persistence.StateStore.{Os, written, torn, file_name, save, load}
use cannectors.Persistence.Durability.{load-save}

-- a state without an ID, as the numbers of its fields; the pipeline is the rest
abbrev encode_state : State → Option Text
encode_state s = elim s.last_id [
  | some id ↦ none
  | none ↦ elim s.last_timestamp [
    | none ↦ some (0 ∷ 0 ∷ s.updated_at ∷ s.pipeline_id)
    | some n ↦ some (1 ∷ n ∷ s.updated_at ∷ s.pipeline_id)
  ]
]

abbrev decode_state : Text → Option State
decode_state (zero ∷ n ∷ u ∷ id) =
    some (record { pipeline_id = id; last_timestamp = none; last_id = none; updated_at = u })
decode_state (suc zero ∷ n ∷ u ∷ id) =
    some (record { pipeline_id = id; last_timestamp = some n; last_id = none; updated_at = u })
decode_state _ = none

abbrev decode_some : Option Text → Option State
decode_some none = none
decode_some (some bytes) = decode_state bytes

decode_encoded :
    (id : Option Text) (t : Option ℕ) (u : ℕ) (p : Text) {bytes : Text}
    → encode_state (record { pipeline_id = p; last_timestamp = t; last_id = id; updated_at = u })
      ≡ some bytes
    → decode_some (
        encode_state (record { pipeline_id = p; last_timestamp = t; last_id = id; updated_at = u }))
      ≡ some (record { pipeline_id = p; last_timestamp = t; last_id = id; updated_at = u })
decode_encoded (some id) t u p h = absurd cc
decode_encoded none none u p h = refl
decode_encoded none (some n) u p h = refl

decode_state-encode_state :
    (s : State) (bytes : Text) → encode_state s ≡ some bytes → decode_state bytes ≡ some s
decode_state-encode_state s bytes h =
    sym (ap decode_some h) ∙ decode_encoded s.last_id s.last_timestamp s.updated_at s.pipeline_id h

abbrev disk : Bool → Os
disk full = record {
  make_dir_fails = false;
  write = λ name. if full then torn (7 ∷ []) else written;
  rename_fails = false;
  remove_fails = λ name. false;
  read_fails = λ name. false;
  encode = encode_state;
  decode = decode_state;
}

abbrev last_run : State
last_run = record {
  pipeline_id = codes "old";
  last_timestamp = some 5;
  last_id = none;
  updated_at = 6;
}

load-save_example :
    load (disk false) (codes "b/x") (save (disk false) (codes "a/x") (some last_run) []).0 ≡ (
      if same (file_name (codes "a/x")) (file_name (codes "b/x"))
      then ok (some (record last_run { pipeline_id = codes "a/x" }))
      else load (disk false) (codes "b/x") [])
unfolding save
load-save_example =
    load-save (disk false) (codes "a/x") (codes "b/x") last_run [] decode_state-encode_state refl
      refl refl
