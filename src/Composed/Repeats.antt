-- ===== src/Composed/Repeats.antt =====
-- How often a key is published behind `ApplyChanges` of internal/provider over the client of
-- internal/dpf.
use external_dns_iij_dpf_web.Base.{
  All, All-mem, All-of_mem, List, any-false, any_of_none, ap, inl, inr, subst, sym, ◌∙◌, ◌≡◌,
}
use external_dns_iij_dpf_web.Base.Text.{Text}
use external_dns_iij_dpf_web.Composed.Grouped.{HasIds, group_of, in_group, own_added}
use external_dns_iij_dpf_web.Composed.Zones.{DpfLaws}
use external_dns_iij_dpf_web.Dnsname.Name.{Dns}
use external_dns_iij_dpf_web.Dnsname.Scope.{Scope}
use external_dns_iij_dpf_web.Dpf.Client.{Client, ClientState, client_backend, list_zones}
use external_dns_iij_dpf_web.Dpf.Content.{has_merge_key}
use external_dns_iij_dpf_web.Dpf.Keyed.{IsParsed}
use external_dns_iij_dpf_web.Dpf.Preserved.{NoRepeats}
use external_dns_iij_dpf_web.Dpf.Repeats.{IsApart, apply-NoRepeats}
use external_dns_iij_dpf_web.Dpf.Wire.{WireRecord}
use external_dns_iij_dpf_web.Errors.{ok}
use external_dns_iij_dpf_web.Provider.Apply.{
  Part, ZoneGroup, apply_changes, deleting, filter_to_scope, part_of,
}
use external_dns_iij_dpf_web.Provider.Splitting.{group_by_zone-splits}
use external_dns_iij_dpf_web.Provider.Txt.{TxtCodec}
use external_dns_iij_dpf_web.Provider.Types.{ChangeSet, Record, Zone, added_records}
use external_dns_iij_dpf_web.Webhook.Handler.{applied}
use mathlib.Core.List.{Memᴰ}

part-IsApart :
    (cs : ChangeSet) (g : ZoneGroup)
    → ((p : Part) (r : Record) → Memᴰ r (part_of p g.changes) → Memᴰ r (part_of p cs))
    → IsApart cs
    → IsApart g.changes
part-IsApart cs g own apart r m k e =
    any_of_none (has_merge_key k) g.changes.remove
      (λ a i. any-false (has_merge_key k) (apart r (own_added cs g own r m) k e) (own deleting a i))

module _ {S R : Type 0} (d : Dns) (t : TxtCodec) (c : Client S R)
    (published : Text → S → List WireRecord) (laws : DpfLaws d t c.api published)
    (scope : Scope) where
  -- A successful ApplyChanges leaves every zone without two records of one key that was without; if
  -- the change set does not, in its scope, delete what it creates or updates, the names that are
  -- created or updated are in the form that `Parse` gives, no two zones have one id, and dpf-go does
  -- what is documented of it.
  pub apply_changes-NoRepeats :
      (cs : ChangeSet) (w w' : ClientState S R) (zones : List Zone) (id : Text)
      → apply_changes d t scope (client_backend c d t) cs w ≡ (ok tt, w')
      → (list_zones c d w).0 ≡ ok zones
      → HasIds zones
      → All (IsParsed d) (added_records (filter_to_scope d scope cs))
      → IsApart (filter_to_scope d scope cs)
      → NoRepeats d (published id w.api)
      → NoRepeats d (published id w'.api)
  apply_changes-NoRepeats cs w w' zones id h lists ids parsed apart distinct =
      let inside = filter_to_scope d scope cs in
      elim (in_group d t c published laws scope cs w w' zones h lists ids) [
        | inl (y, same) ↦
            subst (λ (x : ClientState S R). NoRepeats d (published id x.api)) same distinct
        | inr (gs, grouped, members, applied, left) ↦ elim (group_of id gs) [
          | inl none_there ↦ subst (NoRepeats d) (sym (left id none_there)) distinct
          | inr (g, n, same) ↦
              let (x, y, a, before, after) = applied g n in
              let (own, complete) = group_by_zone-splits d inside zones gs grouped in
              let parts : (p : Part) (q : Record)
                  → Memᴰ q (part_of p g.changes)
                  → Memᴰ q (part_of p inside) =
                λ p q k. (own g n p q k).0 in
              let old : published id w.api ≡ published g.zone.id x =
                sym (before ∙ ap (λ (i : Text). published i w.api) same) in
              let new : published g.zone.id y ≡ published id w'.api =
                sym after ∙ ap (λ (i : Text). published i w'.api) same in
              subst (NoRepeats d) new (
                apply-NoRepeats d t c.api.applier published laws.applies g.zone g.changes x y a
                  (All-of_mem (IsParsed d) (added_records g.changes)
                    (λ q b. All-mem (IsParsed d) parsed (own_added inside g parts q b)))
                  (part-IsApart inside g parts apart) (subst (NoRepeats d) old distinct))
        ]
      ]
