-- ===== src/Dpf/Merge.antt =====
-- internal/dpf/merge.go: `merge`, the set of records to submit.
use external_dns_iij_dpf_web.Base.{
  List, Option, [], delete, eq_list, eq_ℕ, insert, keep_some, lookup, none, some, ◌++◌, ◌∷◌,
}
use external_dns_iij_dpf_web.Base.Int.{eq_ℤ, ℤ}
use external_dns_iij_dpf_web.Base.Text.{Text}
use external_dns_iij_dpf_web.Dnsname.Name.{Dns, eq_name}
use external_dns_iij_dpf_web.Dpf.Rrtype.{eq_rrtype}
use external_dns_iij_dpf_web.Dpf.Wire.{
  MergeKey, WireRecord, eq_merge_key, normalize_values, provider_key, to_rdata, to_ttl, wire_key,
}
use external_dns_iij_dpf_web.Errors.{Result, ok, ◌>>=◌}
use external_dns_iij_dpf_web.Provider.Txt.{TxtCodec}
use external_dns_iij_dpf_web.Provider.Types.{ChangeSet, Record, added_records}

-- `set` and `order` of `merge`.
pub record MergeState : Type 0 where
  pub set : List (MergeKey × WireRecord)
  pub order : List MergeKey

abbrev pub empty_state : MergeState
empty_state = record { set = []; order = [] }

abbrev pub non_nil_labels : WireRecord → WireRecord
non_nil_labels r = elim r.labels [ none ↦ record r { labels = some [] } | some ls ↦ r ]

abbrev pub fresh_record : MergeKey → WireRecord
fresh_record k = record {
  name = k.name;
  rrtype = k.rrtype;
  ttl = none;
  rdata = [];
  labels = some [];
  description = [];
}

abbrev pub order_with : MergeKey → List MergeKey → Option WireRecord → List MergeKey
order_with k order none = order ++ k ∷ []
order_with k order (some v) = order

-- `order`, with the key behind it where `set` does not have it.
abbrev pub order_for : MergeKey → MergeState → List MergeKey
order_for k s = order_with k s.order (lookup k s.set)

module _ (d : Dns) where
  -- One round of loop 1: a record as it was read, under its key.
  unfoldable pub put_current : MergeState → WireRecord → MergeState
  put_current s r =
      let k = wire_key d r in
      record { set = insert k (non_nil_labels r) s.set; order = order_for k s }

  unfoldable pub put_all_current : MergeState → List WireRecord → MergeState
  put_all_current s [] = s
  put_all_current s (r ∷ rs) = put_all_current (put_current s r) rs

-- One round of loop 2.
unfoldable pub drop_record : MergeState → Record → Result MergeState
drop_record s r = do k ← provider_key r; ok (record s { set = delete k s.set })

unfoldable pub drop_all : MergeState → List Record → Result MergeState
drop_all s [] = ok s
drop_all s (r ∷ rs) = drop_record s r >>= λ s'. drop_all s' rs

-- What loop 3 writes over: the record under the key, or a new one.
abbrev pub or_fresh : MergeKey → Option WireRecord → WireRecord
or_fresh k none = fresh_record k
or_fresh k (some b) = b

abbrev pub overwritten : WireRecord → ℤ → List Text → WireRecord
overwritten b ttl values = record b { ttl = to_ttl ttl; rdata = to_rdata values }

-- The state behind a round of loop 3 that finds the key and the values.
abbrev pub put_values : MergeState → Record → MergeKey → List Text → MergeState
put_values s r k values = record {
  set = insert k (overwritten (or_fresh k (lookup k s.set)) r.ttl values) s.set;
  order = order_for k s;
}

module _ (t : TxtCodec) where
  -- One round of loop 3.
  unfoldable pub put_record : MergeState → Record → Result MergeState
  put_record s r =
      provider_key r >>= λ k. normalize_values t r >>= λ values. ok (put_values s r k values)

  unfoldable pub put_all : MergeState → List Record → Result MergeState
  put_all s [] = ok s
  put_all s (r ∷ rs) = put_record s r >>= λ s'. put_all s' rs

-- Loop 4.
unfoldable pub collect : MergeState → List WireRecord
collect s = keep_some (λ k. lookup k s.set) s.order

module _ (d : Dns) (t : TxtCodec) where
  -- The state behind loop 3.
  unfoldable pub merge_state : List WireRecord → ChangeSet → Result MergeState
  merge_state current cs = do
    dropped ← drop_all (put_all_current d empty_state current) cs.remove
    put_all t dropped (added_records cs)

  unfoldable pub merge : List WireRecord → ChangeSet → Result (List WireRecord)
  unfolding merge_state
  merge current cs = do s ← merge_state current cs; ok (collect s)
