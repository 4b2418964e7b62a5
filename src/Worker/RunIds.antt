-- ===== src/Worker/RunIds.antt =====
-- The run_id in the state of a checkpoint: db_collector_os/worker.py.
use db_collector_os.Prelude.{
  ◌≡◌, ap, subst, String, Option, none, some, false, arith, ◌==◌, Bool-cases, inl, inr,
}
use db_collector_os.Models.Json.{Value, null, bool, int, float, str, list, dict, object}
use db_collector_os.Worker.{text_id}

pub text_id-some :
    (v : Option Value) (id : String)
    → text_id v ≡ some id
    → (v ≡ some (str id)) × ((id == "") ≡ false)
text_id-some none id h = absurd (cc h)
text_id-some (some null) id h = absurd (cc h)
text_id-some (some (bool b)) id h = absurd (cc h)
text_id-some (some (int n)) id h = absurd (cc h)
text_id-some (some (float n)) id h = absurd (cc h)
text_id-some (some (list vs)) id h = absurd (cc h)
text_id-some (some (dict fs)) id h = absurd (cc h)
text_id-some (some object) id h = absurd (cc h)
text_id-some (some (str s)) id h = elim (Bool-cases (s == "")) [
  | inl e ↦ absurd (ground (arith, e, h))
  | inr e ↦
      let same : s ≡ id = ground (arith, e, h) in
      (ap (λ (t : String). some (str t)) same, subst (λ (t : String). (t == "") ≡ false) same e)
]
