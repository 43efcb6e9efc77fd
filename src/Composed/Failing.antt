-- ===== src/Composed/Failing.antt =====
-- Lemmas on the errors of `Records` and `ApplyChanges` of internal/provider over the client of
-- internal/dpf: ExternalDNS tries again after a temporary one and gives up after a permanent one, so
-- each must be one of the two.
use external_dns_iij_dpf_web.Base.{
  Bool-cases, List, Option, [], arith, eq_list, eq_ℕ, inl, inr, insert, keep_some, lookup, none,
  refl, some, true, ◌||◌, ◌∷◌, ◌≡◌,
}
use external_dns_iij_dpf_web.Base.Int.{eq_ℤ}
use external_dns_iij_dpf_web.Base.Text.{Text, codes}
use external_dns_iij_dpf_web.Calls.{Call, and_then, continue, lift, wrapping}
use external_dns_iij_dpf_web.Dnsname.Name.{Dns, eq_name}
use external_dns_iij_dpf_web.Dnsname.Scope.{Scope, is_empty_scope}
use external_dns_iij_dpf_web.Dpf.Apply.{apply_error, edit}
use external_dns_iij_dpf_web.Dpf.Applying.{apply_error-is_classified}
use external_dns_iij_dpf_web.Dpf.Classified.{classify-is_classified, is_classified}
use external_dns_iij_dpf_web.Dpf.Classify.{classify}
use external_dns_iij_dpf_web.Dpf.Client.{
  Client, client_apply, client_backend, list_records, list_zones, listing, observe,
}
use external_dns_iij_dpf_web.Dpf.Lock.{LockWait, new_lock_wait, wait_steps}
use external_dns_iij_dpf_web.Dpf.Read.{Reply, to_provider_record, to_zone}
use external_dns_iij_dpf_web.Dpf.Rrtype.{eq_rrtype}
use external_dns_iij_dpf_web.Dpf.Wire.{eq_merge_key}
use external_dns_iij_dpf_web.Errors.{
  Error, IsPermanent, OnError, OnError->>=, Result, err, is, ok, wrap,
}
use external_dns_iij_dpf_web.Provider.Apply.{
  Groups, Part, ZoneGroup, add_to, apply_changes, apply_groups, apply_in_scope, assign, assign_all,
  creating, deleting, filter_to_scope, group_by_zone, no_groups, no_zone, updating,
}
use external_dns_iij_dpf_web.Provider.Backend.{Backend}
use external_dns_iij_dpf_web.Provider.Format.{validate_format-IsPermanent}
use external_dns_iij_dpf_web.Provider.Service.{gather, records, zone_is_relevant}
use external_dns_iij_dpf_web.Provider.Txt.{TxtCodec}
use external_dns_iij_dpf_web.Provider.Types.{ChangeSet, Record, Zone, is_empty_changes, no_changes}
use external_dns_iij_dpf_web.Provider.Validate.{validate_format}
use external_dns_iij_dpf_web.Provider.Zoneindex.{ZoneIndex, new_zone_index, owner}
use external_dns_iij_dpf_web.Telemetry.Metrics.{eq_attributes}

abbrev Classified : Error → Type 0
Classified e = is_classified e ≡ true

-- A call that fails with classified errors only.
abbrev pub IsClassified : {S A : Type 0} → Call S A → Type 0
IsClassified {S} m = (s : S) → OnError Classified (m s).0

wrap-Classified : (e : Error) → Classified e → Classified (wrap e)
unfolding is
wrap-Classified e h = h

permanent-Classified : (e : Error) → IsPermanent e → Classified e
permanent-Classified e h = ground arith

OnError-imp :
    {A : Type 0} (P Q : Error → Type 0) (r : Result A)
    → ((e : Error) → P e → Q e)
    → OnError P r
    → OnError Q r
OnError-imp P Q (ok a) f h = tt
OnError-imp P Q (err e) f h = f e h

module _ {S A : Type 0} where
  wrapping-IsClassified : (m : Call S A) → IsClassified m → IsClassified (wrapping m)
  wrapping-IsClassified m h s = go (m s).0 (h s)
    where
      go :
          (r : Result A)
          → OnError Classified r
          → OnError Classified (elim r [ ok a ↦ ok a | err e ↦ err (wrap e) ])
      go (ok a) k = tt
      go (err e) k = wrap-Classified e k

module _ {S A B : Type 0} where
  and_then-IsClassified :
      (m : Call S A) (f : A → Call S B)
      → IsClassified m
      → ((a : A) → IsClassified (f a))
      → IsClassified (and_then m f)
  and_then-IsClassified m f h k s = go (m s).0 (m s).1 (h s)
    where
      go : (r : Result A) (t : S) → OnError Classified r → OnError Classified (continue r f t).0
      go (ok a) t x = k a t
      go (err e) t x = x

-- A backend that fails with classified errors only.
abbrev IsClassifying : {S : Type 0} → Backend S → Type 0
IsClassifying b =
    IsClassified b.list_zones
    × ((z : Zone) → IsClassified (b.list_records z))
    × ((z : Zone) (cs : ChangeSet) → IsClassified (b.apply z cs))

answer-Classified :
    {A : Type 0} (r : Result A)
    → OnError Classified (elim r [ ok a ↦ ok a | err e ↦ err (classify (wrap e)) ])
answer-Classified (ok a) = tt
answer-Classified (err e) = classify-is_classified (wrap e)

apply_answer-Classified :
    (w : LockWait) (r : Result (Unit {0}))
    → OnError {A = Unit {0}} Classified (elim r [ ok u ↦ ok tt | err e ↦ err (apply_error w e) ])
apply_answer-Classified w (ok u) = tt
apply_answer-Classified w (err e) = apply_error-is_classified w e

module _ {S R : Type 0} (c : Client S R) where
  listing-IsClassified :
      {A B : Type 0} (operation : Text) (f : A → B) (fetch : S → Reply A × S)
      → IsClassified (listing c operation f fetch)
  unfolding listing
  listing-IsClassified operation f fetch w = answer-Classified _

  client_apply-IsClassified :
      (d : Dns) (t : TxtCodec) (z : Zone) (cs : ChangeSet) → IsClassified (client_apply c d t z cs)
  unfolding client_apply observe
  client_apply-IsClassified d t z cs w = elim (Bool-cases (is_empty_changes cs)) [
    | inl y ↦ rw y tt
    | inr n ↦
        let o = c.api.applier.run z.id (edit d t cs) w.api in
        rw n (apply_answer-Classified (wait_steps new_lock_wait o.events) o.result)
  ]

  -- Whatever dpf-go answers, a call of the backend fails with a classified error only.
  client_backend-IsClassifying : (d : Dns) (t : TxtCodec) → IsClassifying (client_backend c d t)
  unfolding client_backend list_zones list_records
  client_backend-IsClassifying d t = (
    listing-IsClassified (codes "list_zones") (keep_some (to_zone d)) c.api.zones,
    λ z.
        listing-IsClassified (codes "list_records") (keep_some (to_provider_record d))
          (c.api.records z.id []),
    λ z cs. client_apply-IsClassified d t z cs,
  )

module _ (d : Dns) (idx : ZoneIndex) where
  assign-IsPermanent :
      (p : Part) (r : Record) (g : Groups) → OnError IsPermanent (assign d idx p r g)
  unfolding assign is
  assign-IsPermanent p r g = go (owner d idx r.name)
    where
      stored : (z : Zone) → Option ChangeSet → Result Groups
      stored z none = ok (record {
        grouped = insert z.name (add_to p r no_changes) g.grouped;
        owners = insert z.name z g.owners;
      })
      stored z (some c) = ok (record g { grouped = insert z.name (add_to p r c) g.grouped })

      on_entry : (z : Zone) (o : Option ChangeSet) → OnError IsPermanent (stored z o)
      on_entry z none = tt
      on_entry z (some c) = tt

      go :
          (o : Option Zone)
          → OnError IsPermanent
              (elim o [ none ↦ err no_zone | some z ↦ stored z (lookup z.name g.grouped) ])
      go none = refl
      go (some z) = on_entry z (lookup z.name g.grouped)

  assign_all-IsPermanent :
      (p : Part) (rs : List Record) (g : Groups) → OnError IsPermanent (assign_all d idx p rs g)
  unfolding assign_all
  assign_all-IsPermanent p [] g = tt
  assign_all-IsPermanent p (r ∷ rs) g =
      OnError->>= IsPermanent (assign d idx p r g) (λ g'. assign_all d idx p rs g')
        (assign-IsPermanent p r g) (λ g'. assign_all-IsPermanent p rs g')

group_by_zone-IsPermanent :
    (d : Dns) (cs : ChangeSet) (zones : List Zone) → OnError IsPermanent (group_by_zone d cs zones)
unfolding group_by_zone
group_by_zone-IsPermanent d cs zones =
    let idx = new_zone_index zones in
    OnError->>= IsPermanent (assign_all d idx creating cs.create no_groups) _
      (assign_all-IsPermanent d idx creating cs.create no_groups)
      λ g.
        OnError->>= IsPermanent (assign_all d idx updating cs.update_to g) _
          (assign_all-IsPermanent d idx updating cs.update_to g)
          λ g'.
            OnError->>= IsPermanent (assign_all d idx deleting cs.remove g') _
              (assign_all-IsPermanent d idx deleting cs.remove g') λ g''. tt

module _ {S : Type 0} (d : Dns) (t : TxtCodec) (scope : Scope) (b : Backend S)
    (h : IsClassifying b) where
  lift-IsClassified :
      {A : Type 0} (r : Result A) → OnError IsPermanent r → IsClassified (lift {S = S} r)
  lift-IsClassified r k s = OnError-imp IsPermanent Classified r permanent-Classified k

  apply_groups-IsClassified : (gs : List ZoneGroup) → IsClassified (apply_groups d t scope b gs)
  unfolding apply_groups
  apply_groups-IsClassified [] = λ s. tt
  apply_groups-IsClassified (g ∷ gs) =
      and_then-IsClassified (wrapping (b.apply g.zone g.changes)) (λ u. apply_groups d t scope b gs)
        (wrapping-IsClassified (b.apply g.zone g.changes) (h.2 g.zone g.changes))
        (λ u. apply_groups-IsClassified gs)

  apply_in_scope-IsClassified : (cs : ChangeSet) → IsClassified (apply_in_scope d t scope b cs)
  unfolding apply_in_scope
  apply_in_scope-IsClassified cs =
      and_then-IsClassified (lift (validate_format d t cs)) _
        (lift-IsClassified (validate_format d t cs) (validate_format-IsPermanent d t cs))
        λ u. and_then-IsClassified b.list_zones _ h.0 λ zones.
          and_then-IsClassified (lift (group_by_zone d cs zones)) _
            (lift-IsClassified (group_by_zone d cs zones) (group_by_zone-IsPermanent d cs zones))
            λ groups. apply_groups-IsClassified groups

  apply_changes-IsClassified : (cs : ChangeSet) → IsClassified (apply_changes d t scope b cs)
  unfolding apply_changes
  apply_changes-IsClassified cs s =
      elim (Bool-cases (is_empty_changes cs || is_empty_scope scope)) [
        | inl y ↦ rw y tt
        | inr n ↦ elim (Bool-cases (is_empty_changes (filter_to_scope d scope cs))) [
          | inl y ↦ rw (n, y) tt
          | inr m ↦ rw (n, m) (apply_in_scope-IsClassified (filter_to_scope d scope cs) s)
        ]
      ]

  gather-IsClassified : (idx : ZoneIndex) (zs : List Zone) → IsClassified (gather d scope b idx zs)
  unfolding gather
  gather-IsClassified idx [] = λ s. tt
  gather-IsClassified idx (z ∷ zs) = elim (Bool-cases (zone_is_relevant d scope z)) [
    | inl y ↦ rw y (
        and_then-IsClassified (wrapping (b.list_records z)) _
          (wrapping-IsClassified (b.list_records z) (h.1 z))
          λ rs.
            and_then-IsClassified (gather d scope b idx zs) _ (gather-IsClassified idx zs)
              λ more s. tt)
    | inr n ↦ rw n (gather-IsClassified idx zs)
  ]

  records-IsClassified : IsClassified (records d scope b)
  unfolding records
  records-IsClassified = elim (Bool-cases (is_empty_scope scope)) [
    | inl y ↦ rw y (λ s. tt)
    | inr n ↦ rw n (
        and_then-IsClassified b.list_zones _ h.0
          λ zones. gather-IsClassified (new_zone_index zones) zones)
  ]

-- Over the client of DPF, whatever dpf-go and the API answer, neither Records nor ApplyChanges fails
-- with an error that is not temporary or permanent: format checks, names without a zone, listings,
-- the lock, the guard and the API's own errors included.
pub client-IsClassified :
    {S R : Type 0} (d : Dns) (t : TxtCodec) (scope : Scope) (c : Client S R)
    → IsClassified (records d scope (client_backend c d t))
      × ((cs : ChangeSet) → IsClassified (apply_changes d t scope (client_backend c d t) cs))
client-IsClassified d t scope c =
    let h = client_backend-IsClassifying c d t in
    (
      records-IsClassified d t scope (client_backend c d t) h,
      λ cs. apply_changes-IsClassified d t scope (client_backend c d t) h cs,
    )
