-- ===== src/Dnsname/Scope.antt =====
-- internal/dnsname/scope.go: containment at label boundaries, and the longest match.
use external_dns_iij_dpf_web.Base.{
  ℕ, Bool, true, false, ◌||◌, not, List, [], ◌∷◌, Option, none, some, if◌then◌else◌, ltb, is_empty,
  keep,
}
use external_dns_iij_dpf_web.Dnsname.Name.{Dns, Name, is_zero, count_labels}

pub record Scope : Type 0 where
  pub domains : List Name

abbrev pub new_scope : List Name → Scope
new_scope ds = record { domains = keep (λ n. not (is_zero n)) ds }

abbrev pub is_empty_scope : Scope → Bool
is_empty_scope s = is_empty s.domains

module _ (d : Dns) where
  -- `Name.Contains`.
  unfoldable pub contains_name : Name → Name → Bool
  contains_name n child =
      if is_zero n || is_zero child then false else d.is_sub_domain n.canonical child.canonical

  -- `n > bestLabels`, where no best is -1.
  abbrev pub longer : ℕ → Option Name → Bool
  longer n none = true
  longer n (some best) = ltb (count_labels d best) n

  -- One round of the loop of `LongestMatch`; `best` is none while `bestLabels` is -1.
  unfoldable pub deeper : Name → Name → Option Name → Option Name
  deeper name x best =
      if contains_name x name
      then (if longer (count_labels d x) best then some x else best)
      else best

  unfoldable pub longest_from : Name → Option Name → List Name → Option Name
  longest_from name best [] = best
  longest_from name best (x ∷ xs) = longest_from name (deeper name x best) xs

  unfoldable pub longest_match : Scope → Name → Option Name
  longest_match s name =
      if is_empty_scope s || is_zero name then none else longest_from name none s.domains

  unfoldable pub in_scope : Scope → Name → Bool
  in_scope s name = elim (longest_match s name) [ none ↦ false | some n ↦ true ]
