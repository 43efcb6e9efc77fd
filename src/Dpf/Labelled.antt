-- ===== src/Dpf/Labelled.antt =====
-- Lemmas on `applyManagedBy` of internal/dpf/label.go: which records get the mark.
use external_dns_iij_dpf_web.Base.{
  Bool, Bool-cases, List, [], add_some, any, ap, contains, eq_list, eq_ℕ, false, if◌then◌else◌, inl,
  inr, keep_some, map, none, refl, some, sym, ◌==◌, ◌||◌, ◌∙◌, ◌∷◌, ◌≡◌,
}
use external_dns_iij_dpf_web.Base.Int.{eq_ℤ}
use external_dns_iij_dpf_web.Dnsname.Name.{eq_name}
use external_dns_iij_dpf_web.Dpf.Content.{has_merge_key}
use external_dns_iij_dpf_web.Dpf.Label.{
  apply_managed_by, changed_key, changed_keys, managed_by, mark,
}
use external_dns_iij_dpf_web.Dpf.Rrtype.{eq_rrtype}
use external_dns_iij_dpf_web.Dpf.Wire.{MergeKey, WireRecord, eq_merge_key, provider_key, raw_key}
use external_dns_iij_dpf_web.Errors.{Result, err, ok}
use external_dns_iij_dpf_web.Provider.Types.{ChangeSet, Record, added_records}
use mathlib.Core.Path.{ap₂}

pub raw_key-mark : (ks : List MergeKey) (r : WireRecord) → raw_key (mark ks r) ≡ raw_key r
raw_key-mark ks r = elim (Bool-cases (contains ks (raw_key r))) [ inl y ↦ rw y | inr n ↦ rw n ]

contains-changed_keys :
    (k : MergeKey) (cs : ChangeSet)
    → contains (changed_keys cs) k ≡ any (has_merge_key k) (added_records cs)
unfolding changed_keys
contains-changed_keys k cs = go (added_records cs)
  where
    one :
        (m : Result MergeKey) (ks : List MergeKey)
        → contains (add_some (elim m [ ok j ↦ some j | err e ↦ none ]) ks) k
          ≡ ((elim m [ ok j ↦ j == k | err e ↦ false ]) || contains ks k)
    one (ok j) ks = refl
    one (err e) ks = refl

    go : (rs : List Record) → contains (keep_some changed_key rs) k ≡ any (has_merge_key k) rs
    go [] = refl
    go (r ∷ rs) =
        one (provider_key r) (keep_some changed_key rs)
        ∙ ap (λ (b : Bool). has_merge_key k r || b) (go rs)

-- What the mark makes of a record of the set.
abbrev pub marked : ChangeSet → WireRecord → WireRecord
marked cs r =
    if any (has_merge_key (raw_key r)) (added_records cs)
    then record r { labels = some managed_by }
    else r

-- In the marked set every record stands where it stood: one whose name and type are those of a
-- record that the change set creates or updates has the mark as its only label, and any other is as
-- it was.
pub apply_managed_by-eq-map :
    (set : List WireRecord) (cs : ChangeSet) → apply_managed_by set cs ≡ map (marked cs) set
unfolding apply_managed_by
apply_managed_by-eq-map set cs = go (changed_keys cs) refl
  where
    each_mark : (rs : List WireRecord) → map (mark (changed_keys cs)) rs ≡ map (marked cs) rs
    each_mark [] = refl
    each_mark (r ∷ rs) =
        ap₂ (λ (x : WireRecord) (xs : List WireRecord). x ∷ xs)
          (ap (λ (b : Bool). if b then record r { labels = some managed_by } else r)
            (contains-changed_keys (raw_key r) cs))
          (each_mark rs)

    unmarked : (rs : List WireRecord) → map (mark []) rs ≡ rs
    unmarked [] = refl
    unmarked (r ∷ rs) = ap (λ (xs : List WireRecord). r ∷ xs) (unmarked rs)

    go : (ks : List MergeKey) → changed_keys cs ≡ ks → apply_managed_by set cs ≡ map (marked cs) set
    go [] e =
        rw (e, apply_managed_by)
          (sym (unmarked set)
            ∙ ap (λ (l : List MergeKey). map (mark l) set) (sym e)
            ∙ each_mark set)
    go (k ∷ ks) e =
        rw (e, apply_managed_by)
          (ap (λ (l : List MergeKey). map (mark l) set) (sym e) ∙ each_mark set)

pub raw_key-marked : (cs : ChangeSet) (r : WireRecord) → raw_key (marked cs r) ≡ raw_key r
raw_key-marked cs r = elim (Bool-cases (any (has_merge_key (raw_key r)) (added_records cs))) [
  | inl y ↦ rw y
  | inr n ↦ rw n
]
