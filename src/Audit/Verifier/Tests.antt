-- ===== src/Audit/Verifier/Tests.antt =====
-- The verifier of services/layer6_audit/verifier.py at concrete logs. The digest here keeps its
-- input: a hash is the list of the bodies that it stands on, so it has no collisions.
use algo_trading_platform.Base.{
  ◌↔◌, ℕ, ◌≡◌, refl, Bool, true, false, none, List, [], ◌∷◌, map, inl, inr, Bool-cases, String,
}
use native.Mathlib.Decide.{ℕ_discrete}
use algo_trading_platform.Base.Dict.{Eq, string_eq}
use algo_trading_platform.Audit.{AuditBody, AuditEntry, entry}
use algo_trading_platform.Audit.Verifier.{intact, verify_lines}
use algo_trading_platform.Audit.Verifier.Chain.{verify_lines-snoc, verify_lines_tamper_evident}

-- The fields of a body but its previous hash.
abbrev pub Fields : Type 0
Fields = String × ℕ × String × ℕ × ℕ × ℕ × ℕ × String

abbrev pub keep : AuditBody (List Fields) ℕ ℕ → List Fields
keep b =
    (
      b.entry_id, b.timestamp_utc, b.event_type, b.source_layer, b.payload, b.trust_score,
      b.anomaly_score, b.system_state,
    )
    ∷ b.previous_hash

abbrev fields : AuditBody (List Fields) ℕ ℕ → Fields
fields b = (
  b.entry_id, b.timestamp_utc, b.event_type, b.source_layer, b.payload, b.trust_score,
  b.anomaly_score, b.system_state,
)

keep-injective : (x y : AuditBody (List Fields) ℕ ℕ) → keep x ≡ keep y → x ≡ y
keep-injective x y same =
    let front : fields x ≡ fields y = cc in
    let rest : x.previous_hash ≡ y.previous_hash = cc in
    λ i. record {
      entry_id = (front i).0;
      timestamp_utc = (front i).1;
      event_type = (front i).2;
      source_layer = (front i).3;
      payload = (front i).4;
      trust_score = (front i).5;
      anomaly_score = (front i).6;
      system_state = (front i).7;
      previous_hash = rest i;
    }

String-discrete : Discrete String
String-discrete a b = elim (Bool-cases (string_eq.beq a b)) [
  | inl e ↦ yes ((string_eq.beq_iff a b).0 e)
  | inr e ↦ no (λ p. let q = (string_eq.beq_iff a b).1 p in cc)
]

pub Fields-discrete : Discrete (List Fields)
Fields-discrete = hlevel (String-discrete, ℕ_discrete)

abbrev pub to_bool : {A : Type 0} → Dec A → Bool
to_bool (yes _) = true
to_bool (no _) = false

pub to_bool_iff : {A : Type 0} (d : Dec A) → (to_bool d ≡ true) ↔ A
to_bool_iff (yes a) = ((λ _. a), (λ _. refl))
to_bool_iff (no f) = ((λ p. cc), (λ a. absurd (f a)))

instance abbrev pub hash_eq : Eq (List Fields)
hash_eq = record {
  beq = λ a b. to_bool (Fields-discrete a b);
  beq_iff = λ a b. to_bool_iff (Fields-discrete a b);
}

abbrev pub genesis : List Fields
genesis = []

abbrev pub opened : AuditBody (List Fields) ℕ ℕ
opened = record {
  entry_id = "a";
  timestamp_utc = 100;
  event_type = "SYSTEM_START";
  source_layer = 6;
  payload = 1;
  trust_score = 1;
  anomaly_score = 0;
  system_state = "NORMAL";
  previous_hash = genesis;
}

abbrev traded : AuditBody (List Fields) ℕ ℕ
traded = record opened {
  entry_id = "b";
  timestamp_utc = 101;
  event_type = "ORDER_DECISION";
  previous_hash = keep opened;
}

abbrev sealed : AuditBody (List Fields) ℕ ℕ → AuditEntry (List Fields) ℕ ℕ
sealed b = record { body = b; current_hash = keep b }

abbrev log : List (AuditEntry (List Fields) ℕ ℕ)
log = sealed opened ∷ sealed traded ∷ []

log_accepted : verify_lines keep 1 none (map entry log) ≡ intact
unfolding verify_lines
log_accepted =
    let own = (hash_eq.beq_iff (keep opened) (keep opened)).1 refl in
    verify_lines-snoc keep 1 none (entry (sealed opened) ∷ []) (sealed traded)
      (verify_lines-snoc keep 1 none [] (sealed opened) refl refl refl) own refl

verify_lines_tamper_evident_example : log ≡ log
verify_lines_tamper_evident_example =
    verify_lines_tamper_evident keep keep-injective 1 1 none none log log log_accepted log_accepted
      refl (λ e. cc) refl
