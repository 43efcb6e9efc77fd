-- ===== src/Provider/Counting.antt =====
-- Lemmas on what `ApplyChanges` of internal/provider/apply.go measures with the instruments of
-- internal/telemetry/metrics.go.
use external_dns_iij_dpf_web.Base.{
  Bool, Bool-cases, List, Option, [], ap, arith, false, if◌then◌else◌, inl, inr, length,
  lookup-insert, ltb, none, refl, some, suc, sym, true, ℕ, ◌+◌, ◌∙◌, ◌∷◌, ◌≡◌,
}
use external_dns_iij_dpf_web.Provider.Apply.{Part, creating, deleting, part_of, updating}
use external_dns_iij_dpf_web.Provider.Observed.{Recorder, op_of, record_outcome, record_parts}
use external_dns_iij_dpf_web.Provider.Totals.{same_part}
use external_dns_iij_dpf_web.Provider.Types.{ChangeSet}
use external_dns_iij_dpf_web.Telemetry.Metrics.{
  Attributes, Metrics, add, attributes_eq, attributes_eq_iff, counted, eq_attributes,
  record_apply_failure, record_changes,
}

abbrev pub metrics_recorder : Recorder (Option Metrics)
metrics_recorder = record {
  record_changes = record_changes;
  record_apply_failure = record_apply_failure;
}

-- The label set of the records of a part that were applied.
abbrev labels_of : Part → Attributes
labels_of part = record { operation = op_of part; success = true }

-- How many records of a part count as applied, and how many applies as failed.
abbrev pub applied_count : Part → Option Metrics → ℕ
applied_count part none = 0
applied_count part (some m) = counted (labels_of part) m.changes

abbrev pub failure_count : Option Metrics → ℕ
failure_count none = 0
failure_count (some m) = m.apply_failure

-- How often a part stands in an order.
abbrev pub times : Part → List Part → ℕ
times part [] = 0
times part (q ∷ order) = let rest = times part order in if same_part q part then suc rest else rest

-- A count, as often.
abbrev repeated : Part → List Part → ℕ → ℕ
repeated part [] n = 0
repeated part (q ∷ order) n = (if same_part q part then n else 0) + repeated part order n

repeated_never :
    (part : Part) (order : List Part) (n : ℕ) → times part order ≡ 0 → repeated part order n ≡ 0
repeated_never part [] n h = refl
repeated_never part (q ∷ order) n h = ground (arith, repeated_never part order n)

repeated_once :
    (part : Part) (order : List Part) (n : ℕ) → times part order ≡ 1 → repeated part order n ≡ n
repeated_once part [] n h = cc
repeated_once part (q ∷ order) n h =
    ground (arith, repeated_once part order n, repeated_never part order n)

labels_of-same : (q part : Part) → attributes_eq (labels_of q) (labels_of part) ≡ same_part q part
labels_of-same creating creating = refl
labels_of-same creating updating = refl
labels_of-same creating deleting = refl
labels_of-same updating creating = refl
labels_of-same updating updating = refl
labels_of-same updating deleting = refl
labels_of-same deleting creating = refl
labels_of-same deleting updating = refl
labels_of-same deleting deleting = refl

counted-add :
    (n : ℕ) (a b : Attributes) (m : List (Attributes × ℕ))
    → counted b (add n a m) ≡ counted b m + (if attributes_eq a b then n else 0)
unfolding add
counted-add n a b m =
    ap (λ (o : Option ℕ). elim o [ none ↦ 0 | some k ↦ k ])
      (lookup-insert ⦃e = eq_attributes⦄ a b (counted a m + n) m)
    ∙ elim (Bool-cases (attributes_eq a b)) [
      | inl y ↦ rw y (ap (λ (x : Attributes). counted x m + n) ((attributes_eq_iff a b).0 y))
      | inr z ↦ rw z (omega arith)
    ]

record_changes-count :
    (q part : Part) (n : ℕ) (m : Metrics)
    → applied_count part (record_changes (op_of q) true n (some m))
      ≡ applied_count part (some m) + (if same_part q part then n else 0)
unfolding record_changes
record_changes-count q part n m =
    counted-add n (labels_of q) (labels_of part) m.changes
    ∙ ap (λ (b : Bool). counted (labels_of part) m.changes + (if b then n else 0))
        (labels_of-same q part)

-- What is measured exists, and differs by what was applied.
abbrev pub Counts : (Part → ℕ) → Option Metrics → Option Metrics → Type 0
Counts more before after =
    (m : Metrics) × (after ≡ some m)
    × ((part : Part) → applied_count part after ≡ applied_count part before + more part)
    × (failure_count after ≡ failure_count before)

pub Counts-then :
    (f g h : Part → ℕ) (a b c : Option Metrics)
    → ((part : Part) → h part ≡ f part + g part)
    → Counts f a b
    → Counts g b c
    → Counts h a c
Counts-then f g h a b c sum (m, e, k, l) (n, x, y, z) =
    (n, x, λ part. omega (arith, sum part, k part, y part), z ∙ l)

same_part-length :
    (q part : Part) (cs : ChangeSet)
    → (if same_part q part then length (part_of q cs) else 0)
      ≡ (if same_part q part then length (part_of part cs) else 0)
same_part-length creating creating cs = refl
same_part-length creating updating cs = refl
same_part-length creating deleting cs = refl
same_part-length updating creating cs = refl
same_part-length updating updating cs = refl
same_part-length updating deleting cs = refl
same_part-length deleting creating cs = refl
same_part-length deleting updating cs = refl
same_part-length deleting deleting cs = refl

none_of : (q part : Part) (n : ℕ) → ltb 0 n ≡ false → (if same_part q part then n else 0) ≡ 0
none_of q part n h = ground arith

record_parts-Counts :
    (order : List Part) (cs : ChangeSet) (m : Metrics)
    → Counts
        (λ part. repeated part order (length (part_of part cs)))
        (some m)
        (record_parts metrics_recorder order cs true (some m))
unfolding record_parts record_changes
record_parts-Counts [] cs m = (m, refl, λ part. omega arith, refl)
record_parts-Counts (q ∷ order) cs m =
    let n : ℕ = length (part_of q cs) in
    let rest : Part → ℕ = λ part. repeated part order (length (part_of part cs)) in
    let whole : Part → ℕ = λ part. repeated part (q ∷ order) (length (part_of part cs)) in
    elim (Bool-cases (ltb 0 n)) [
      | inl y ↦
          let more : Metrics = record m { changes = add n (labels_of q) m.changes } in
          rw y (
            Counts-then (λ part. if same_part q part then n else 0) rest whole (some m) (some more)
              (record_parts metrics_recorder order cs true (some more))
              (λ part. ap (λ (k : ℕ). k + rest part) (sym (same_part-length q part cs)))
              (more, refl, λ part. record_changes-count q part n m, refl)
              (record_parts-Counts order cs more))
      | inr z ↦ rw z (
          Counts-then (λ part. 0) rest whole (some m) (some m)
            (record_parts metrics_recorder order cs true (some m))
            (λ part.
              ap (λ (k : ℕ). k + rest part) (sym (same_part-length q part cs) ∙ none_of q part n z))
            (m, refl, λ part. omega arith, refl) (record_parts-Counts order cs m))
    ]

-- Each part stands in the order once, as each key of a map comes up once.
abbrev pub IsOnce : List Part → Type 0
IsOnce order = (part : Part) → times part order ≡ 1

pub record_outcome-Counts :
    (order : List Part) (cs : ChangeSet) (m : Metrics)
    → IsOnce order
    → Counts
        (λ part. length (part_of part cs))
        (some m)
        (record_outcome (some metrics_recorder) order cs true (some m))
unfolding record_outcome
record_outcome-Counts order cs m once =
    let (n, e, k, l) = record_parts-Counts order cs m in
    (
      n,
      e,
      λ part.
          omega (arith, k part, repeated_once part order (length (part_of part cs)) (once part)),
      l,
    )
