-- ===== src/Tests/Examples.antt =====
-- A zone in small, a change set on it, and what a merge makes of them.
use Prim.Native.String.{String}
use external_dns_iij_dpf_web.Base.{
  All, List, Option, [], delete, eq_list, eq_ℕ, insert, none, refl, some, ◌++◌, ◌∷◌, ◌≡◌,
}
use external_dns_iij_dpf_web.Base.Int.{eq_ℤ, pos}
use external_dns_iij_dpf_web.Base.Text.{Text, after_text, codes, trim_left, trim_space}
use external_dns_iij_dpf_web.Dnsname.Name.{Name, eq_name, parse}
use external_dns_iij_dpf_web.Dpf.Guarded.{IsExact}
use external_dns_iij_dpf_web.Dpf.Keyed.{IsParsed}
use external_dns_iij_dpf_web.Dpf.Merge.{
  collect, drop_all, drop_record, merge, merge_state, put_all, put_all_current, put_current,
  put_record,
}
use external_dns_iij_dpf_web.Dpf.Preserved.{NoRepeats}
use external_dns_iij_dpf_web.Dpf.Rrtype.{eq_rrtype, rr_a, to_dpf}
use external_dns_iij_dpf_web.Dpf.Wire.{
  MergeKey, WireRecord, eq_merge_key, key_of, normalize_values, provider_key, to_ttl, wire_key,
}
use external_dns_iij_dpf_web.Errors.{ok}
use external_dns_iij_dpf_web.Provider.Txt.{TxtCodec}
use external_dns_iij_dpf_web.Provider.Types.{ChangeSet, Record, added_records, type_a}
use external_dns_iij_dpf_web.Tests.ExampleDns.{dotted, example_dns, with_dot}

-- A TXT reader that takes a line's value for the only string of its record.
abbrev pub example_txt : TxtCodec
example_txt = record {
  Rr = Text;
  new_rr = λ line. after_text (codes "TXT ") line;
  strings = λ rr. rr ∷ [];
  print = λ rr. codes "TXT" ++ 9 ∷ rr;
}

abbrev pub name_of : String → Name
name_of s = record { canonical = codes s }

abbrev pub wire_a : String → Option (List (Text × Text)) → String → WireRecord
wire_a name ls value = record {
  name = codes name;
  rrtype = rr_a;
  ttl = none;
  rdata = some (codes value) ∷ [];
  labels = ls;
  description = [];
}

abbrev pub record_a : String → String → Record
record_a name value = record {
  name = name_of name;
  rtype = type_a;
  ttl = pos 0;
  values = codes value ∷ [];
}

-- The zone has `a.` and `b.`; the changes delete `b.` and create `c.`.
abbrev pub published : List WireRecord
published = wire_a "a." none "1" ∷ wire_a "b." none "2" ∷ []

abbrev pub changes : ChangeSet
changes = record {
  create = record_a "c." "3" ∷ [];
  update_to = [];
  remove = record_a "b." "2" ∷ [];
}

abbrev pub merged_set : List WireRecord
merged_set = wire_a "a." (some []) "1" ∷ wire_a "c." (some []) "3" ∷ []

abbrev pub key_a : String → MergeKey
key_a name = record { name = codes name; rrtype = rr_a }

pub merge-published : merge example_dns example_txt published changes ≡ ok merged_set
unfolding merge merge_state put_all_current put_current drop_all drop_record put_all put_record
    collect wire_key key_of parse provider_key to_dpf normalize_values to_ttl insert delete dotted
    with_dot trim_space trim_left
merge-published = refl

pub published-NoRepeats : NoRepeats example_dns published
unfolding wire_key key_of parse dotted with_dot trim_space trim_left
published-NoRepeats = ((refl, tt), (tt, tt))

pub published-IsExact : All (IsExact example_dns) published
unfolding wire_key key_of parse dotted with_dot trim_space trim_left
published-IsExact = (refl, (refl, tt))

pub changes-IsParsed : All (IsParsed example_dns) (added_records changes)
unfolding parse dotted with_dot trim_space trim_left
changes-IsParsed = (refl, tt)
