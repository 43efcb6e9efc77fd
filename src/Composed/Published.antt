-- ===== src/Composed/Published.antt =====
-- What DPF publishes behind `ApplyChanges` of internal/provider over the client of internal/dpf, in
-- all zones at once.
use external_dns_iij_dpf_web.Base.{
  All, All-mem, All-of_mem, List, any, any-false, any_of_mem, any_of_none, ap, eq_list, eq_ℕ, false,
  inl, inr, last_passing, mem-append_right, refl, some, subst, sym, true, ◌++◌, ◌==◌, ◌∙◌, ◌∷◌, ◌≡◌,
  ◌⊎◌,
}
use external_dns_iij_dpf_web.Base.Int.{eq_ℤ}
use external_dns_iij_dpf_web.Base.Text.{Text}
use external_dns_iij_dpf_web.Composed.Grouped.{
  HasIds, group_of, has_own_key, in_group, not_empty, own_added, part_of_added,
}
use external_dns_iij_dpf_web.Composed.Zones.{DpfLaws}
use external_dns_iij_dpf_web.Dnsname.Name.{Dns, eq_name}
use external_dns_iij_dpf_web.Dnsname.Scope.{Scope}
use external_dns_iij_dpf_web.Dpf.Client.{Client, ClientState, client_backend, list_zones}
use external_dns_iij_dpf_web.Dpf.Content.{has_merge_key}
use external_dns_iij_dpf_web.Dpf.Guarded.{IsExact}
use external_dns_iij_dpf_web.Dpf.Keyed.{IsParsed}
use external_dns_iij_dpf_web.Dpf.Merge.{non_nil_labels}
use external_dns_iij_dpf_web.Dpf.Preserved.{HasValues, IsUntouched, NoRepeats}
use external_dns_iij_dpf_web.Dpf.Published.{apply-added, apply-untouched}
use external_dns_iij_dpf_web.Dpf.Removed.{apply-removed}
use external_dns_iij_dpf_web.Dpf.Rrtype.{eq_rrtype}
use external_dns_iij_dpf_web.Dpf.Wire.{MergeKey, WireRecord, eq_merge_key, provider_key, wire_key}
use external_dns_iij_dpf_web.Errors.{ok}
use external_dns_iij_dpf_web.Provider.Apply.{
  Part, ZoneGroup, apply_changes, deleting, filter_to_scope, part_of,
}
use external_dns_iij_dpf_web.Provider.Splitting.{group_by_zone-splits}
use external_dns_iij_dpf_web.Provider.Txt.{TxtCodec}
use external_dns_iij_dpf_web.Provider.Types.{
  ChangeSet, Record, Zone, added_records, is_empty_changes, key,
}
use external_dns_iij_dpf_web.Provider.Writing.{no_record}
use external_dns_iij_dpf_web.Provider.Zoneindex.{new_zone_index, owner}
use external_dns_iij_dpf_web.Telemetry.Metrics.{eq_attributes}
use external_dns_iij_dpf_web.Webhook.Handler.{applied}
use mathlib.Core.List.{Memᴰ}

module _ {S R : Type 0} (d : Dns) (t : TxtCodec) (c : Client S R)
    (published : Text → S → List WireRecord) (laws : DpfLaws d t c.api published)
    (scope : Scope) where
  -- Behind a successful ApplyChanges, a record of the change set that is to be created or updated and
  -- is in scope is published, under its name and type, with its TTL and its values, in a listed zone of
  -- the name of the zone that its name belongs to; if its name is in the form that `Parse` gives, no
  -- other such record has its key, no two zones have one id, and dpf-go does what is documented of
  -- it.
  pub apply_changes-publishes :
      (cs : ChangeSet) (w w' : ClientState S R) (zones : List Zone) (r : Record) (k : MergeKey)
      → apply_changes d t scope (client_backend c d t) cs w ≡ (ok tt, w')
      → (list_zones c d w).0 ≡ ok zones
      → HasIds zones
      → Memᴰ r (added_records (filter_to_scope d scope cs))
      → IsParsed d r
      → provider_key r ≡ ok k
      → ((q : Record)
          → Memᴰ q (added_records (filter_to_scope d scope cs))
          → has_merge_key k q ≡ true
          → q ≡ r)
      → (z : Zone) × Memᴰ z zones
        × ((y : Zone) × (owner d (new_zone_index zones) r.name ≡ some y) × (y.name ≡ z.name))
        × ((v : WireRecord) × Memᴰ v (published z.id w'.api) × (wire_key d v ≡ k) × HasValues t r v)
  apply_changes-publishes cs w w' zones r k h lists ids m parsed key only =
      let (p, part, whole) = part_of_added (filter_to_scope d scope cs) r m in
      elim (in_group d t c published laws scope cs w w' zones h lists ids) [
        | inl (y, same) ↦ absurd (no_record (filter_to_scope d scope cs) p y part)
        | inr (gs, grouped, members, applied, left) ↦
            let (own, complete) =
              group_by_zone-splits d (filter_to_scope d scope cs) zones gs grouped in
            let (g, n, inside) = complete p r part in
            let (u, v, a, before, after) = applied g n in
            let sub = own_added (filter_to_scope d scope cs) g (λ q a b. (own g n q a b).0) in
            let (b, x, rest, split, passes, last) =
              last_passing (has_merge_key k) (added_records g.changes) (
                any_of_mem (has_merge_key k) (added_records g.changes) (whole g.changes inside)
                  (has_own_key r k key)) in
            let same : x ≡ r =
              only x
                (sub x (
                  subst (λ (l : List Record). Memᴰ x l) (sym split)
                    (mem-append_right b (Memᴰ.head refl))))
                passes in
            let changed : is_empty_changes g.changes ≡ false = not_empty g.changes p inside in
            let (wire, found, own_key, held) =
              apply-added d t c.api.applier published laws.applies g.zone g.changes u v r b rest k a
                changed (split ∙ ap (λ (y : Record). b ++ y ∷ rest) same) parsed key last in
            (
              g.zone,
              All-mem (λ g. Memᴰ g.zone zones) members n,
              (own g n p r inside).1,
              (wire, subst (λ (l : List WireRecord). Memᴰ wire l) (sym after) found, own_key, held),
            )
      ]

  part-IsUntouched :
      (cs : ChangeSet) (g : ZoneGroup) (k : MergeKey)
      → ((p : Part) (r : Record) → Memᴰ r (part_of p g.changes) → Memᴰ r (part_of p cs))
      → IsUntouched d t cs k
      → IsUntouched d t g.changes k
  part-IsUntouched cs g k own u = (
    any_of_none (has_merge_key k) g.changes.remove
        (λ a m. any-false (has_merge_key k) u.0 (own deleting a m)),
    any_of_none (has_merge_key k) (added_records g.changes)
        (λ a m. any-false (has_merge_key k) u.1 (own_added cs g own a m)),
  )

  -- Behind a successful ApplyChanges, a record that any zone published, whose name is in canonical
  -- form and whose key the change set neither deletes, creates nor updates in its scope, is published
  -- as it was, but for a nil label map, which may have become an empty one; if the zone published no
  -- key twice, no two zones have one id, and dpf-go does what is documented of it.
  pub apply_changes-leaves :
      (cs : ChangeSet) (w w' : ClientState S R) (zones : List Zone) (id : Text) (v : WireRecord)
      → apply_changes d t scope (client_backend c d t) cs w ≡ (ok tt, w')
      → (list_zones c d w).0 ≡ ok zones
      → HasIds zones
      → NoRepeats d (published id w.api)
      → Memᴰ v (published id w.api)
      → IsExact d v
      → IsUntouched d t (filter_to_scope d scope cs) (wire_key d v)
      → Memᴰ v (published id w'.api) ⊎ Memᴰ (non_nil_labels v) (published id w'.api)
  apply_changes-leaves cs w w' zones id v h lists ids distinct m exact untouched =
      elim (in_group d t c published laws scope cs w w' zones h lists ids) [
        | inl (y, same) ↦ inl (subst (λ (x : ClientState S R). Memᴰ v (published id x.api)) same m)
        | inr (gs, grouped, members, applied, left) ↦ elim (group_of id gs) [
          | inl none_there ↦
              inl (subst (λ (l : List WireRecord). Memᴰ v l) (sym (left id none_there)) m)
          | inr (g, n, same) ↦
              let (x, y, a, before, after) = applied g n in
              let (own, complete) =
                group_by_zone-splits d (filter_to_scope d scope cs) zones gs grouped in
              let old : published g.zone.id x ≡ published id w.api =
                before ∙ ap (λ (i : Text). published i w.api) same in
              let new : published g.zone.id y ≡ published id w'.api =
                sym after ∙ ap (λ (i : Text). published i w'.api) same in
              subst (λ (l : List WireRecord). Memᴰ v l ⊎ Memᴰ (non_nil_labels v) l) new
                (apply-untouched d t c.api.applier published laws.applies g.zone g.changes x y v a
                  (subst (λ (l : List WireRecord). NoRepeats d l) (sym old) distinct)
                  (subst (λ (l : List WireRecord). Memᴰ v l) (sym old) m) exact
                  (part-IsUntouched (filter_to_scope d scope cs) g (wire_key d v)
                    (λ p r k. (own g n p r k).0) untouched))
        ]
      ]

  -- Behind a successful ApplyChanges, no record is published with the key of a record that the change
  -- set deletes in its scope and neither creates nor updates there, in a listed zone of the name of
  -- the zone that the deleted record's name belongs to; if the names that are created or updated are
  -- in the form that `Parse` gives, no two zones have one id, and dpf-go does what is documented of
  -- it.
  pub apply_changes-removes :
      (cs : ChangeSet) (w w' : ClientState S R) (zones : List Zone) (r : Record) (k : MergeKey)
      → apply_changes d t scope (client_backend c d t) cs w ≡ (ok tt, w')
      → (list_zones c d w).0 ≡ ok zones
      → HasIds zones
      → Memᴰ r (filter_to_scope d scope cs).remove
      → provider_key r ≡ ok k
      → All (IsParsed d) (added_records (filter_to_scope d scope cs))
      → any (has_merge_key k) (added_records (filter_to_scope d scope cs)) ≡ false
      → (z : Zone) × Memᴰ z zones
        × ((y : Zone) × (owner d (new_zone_index zones) r.name ≡ some y) × (y.name ≡ z.name))
        × (any (λ v. wire_key d v == k) (published z.id w'.api) ≡ false)
  apply_changes-removes cs w w' zones r k h lists ids m key parsed fresh =
      let inside = filter_to_scope d scope cs in
      elim (in_group d t c published laws scope cs w w' zones h lists ids) [
        | inl (y, same) ↦ absurd (no_record inside deleting y m)
        | inr (gs, grouped, members, applied, left) ↦
            let (own, complete) = group_by_zone-splits d inside zones gs grouped in
            let (g, n, here) = complete deleting r m in
            let (u, v, a, before, after) = applied g n in
            let sub = own_added inside g (λ q a b. (own g n q a b).0) in
            let gone : any (λ v. wire_key d v == k) (published g.zone.id v) ≡ false =
              apply-removed d t c.api.applier published laws.applies g.zone g.changes u v k a
                (not_empty g.changes deleting here)
                (All-of_mem (IsParsed d) (added_records g.changes)
                  (λ q b. All-mem (IsParsed d) parsed (sub q b)))
                (any_of_mem (has_merge_key k) g.changes.remove here (has_own_key r k key))
                (any_of_none (has_merge_key k) (added_records g.changes)
                  (λ q b. any-false (has_merge_key k) fresh (sub q b))) in
            (
              g.zone,
              All-mem (λ g. Memᴰ g.zone zones) members n,
              (own g n deleting r here).1,
              ap (λ (l : List WireRecord). any (λ v. wire_key d v == k) l) after ∙ gone,
            )
      ]
