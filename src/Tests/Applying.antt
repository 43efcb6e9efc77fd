-- ===== src/Tests/Applying.antt =====
-- The theorems on errors and on failing applies.
use external_dns_iij_dpf_web.Base.{
  List, [], ap, false, if◌then◌else◌, none, refl, some, true, ℕ, ◌∷◌, ◌≡◌, ◌≢◌, ◌⊎◌,
}
use external_dns_iij_dpf_web.Base.Text.{Text, codes, trim_left, trim_space}
use external_dns_iij_dpf_web.Dnsname.Name.{parse}
use external_dns_iij_dpf_web.Dpf.Apply.{Edit, Outcome, ZoneApplier, apply, edit}
use external_dns_iij_dpf_web.Dpf.Applying.{apply-runs_out}
use external_dns_iij_dpf_web.Dpf.Lock.{entering, expiring, new_lock_wait, wait_steps}
use external_dns_iij_dpf_web.Dpf.Preserved.{HasValues}
use external_dns_iij_dpf_web.Dpf.Published.{ApplierLaws, apply-added, apply-untouched}
use external_dns_iij_dpf_web.Dpf.Rrtype.{to_dpf}
use external_dns_iij_dpf_web.Dpf.Waiting.{runs_out, wait_steps-runs_out}
use external_dns_iij_dpf_web.Dpf.Wire.{WireRecord, key_of, provider_key, wire_key}
use external_dns_iij_dpf_web.Errors.{
  Error, IsTemporary, Result, canceled, err, err_permanent, is, ok, sentinel, skip_apply,
  still_lock,
}
use external_dns_iij_dpf_web.Provider.Types.{Zone}
use external_dns_iij_dpf_web.Tests.ExampleDns.{dotted, example_dns, with_dot}
use external_dns_iij_dpf_web.Tests.Examples.{
  changes, example_txt, key_a, name_of, published, published-NoRepeats, record_a, wire_a,
}
use external_dns_iij_dpf_web.Tests.Merging.{edit-published, marked_set}
use mathlib.Core.List.{Memᴰ}

wait_steps-runs_out_example :
    ((wait_steps new_lock_wait (expiring ∷ entering ∷ [])).expired
      ≡ runs_out (expiring ∷ entering ∷ []))
    × ((wait_steps new_lock_wait (expiring ∷ entering ∷ [])).cancelled
        ≡ runs_out (expiring ∷ entering ∷ []))
wait_steps-runs_out_example = wait_steps-runs_out (expiring ∷ entering ∷ [])

-- The lock is never had.
abbrev waiting : ZoneApplier ℕ
waiting = record {
  run = λ id edit s. record { result = err (sentinel canceled); events = expiring ∷ []; state = s };
}

abbrev some_zone : Zone
some_zone = record { name = name_of "c."; id = codes "1" }

apply-runs_out_example :
    (f : Error) × ((apply example_dns example_txt waiting some_zone changes 0).0 ≡ err f)
    × (is still_lock f ≡ true)
    × IsTemporary f
    × (is err_permanent f ≡ false)
apply-runs_out_example =
    apply-runs_out example_dns example_txt waiting some_zone changes 0 (sentinel canceled) refl refl
      refl

-- An applier whose state is what the one zone publishes.
abbrev prompt_answer : List WireRecord → Result (List WireRecord) → Outcome (List WireRecord)
prompt_answer s (ok set) = record { result = ok tt; events = entering ∷ []; state = set }
prompt_answer s (err e) = record {
  result = if is skip_apply e then ok tt else err e;
  events = entering ∷ [];
  state = s;
}

abbrev prompt : ZoneApplier (List WireRecord)
prompt = record { run = λ id edit s. prompt_answer s (edit s) }

abbrev own_state : Text → List WireRecord → List WireRecord
own_state id s = s

prompt-ApplierLaws : ApplierLaws example_dns example_txt prompt own_state
prompt-ApplierLaws = record {
  submits = λ id cs s set h r. ap (λ (m : Result (List WireRecord)). (prompt_answer s m).state) h;
  skips = λ id cs s f h k. ap (λ (m : Result (List WireRecord)). (prompt_answer s m).state) h;
  refuses = λ id cs s f h k r. refused (edit example_dns example_txt cs) s f h k r;
}
  where
    refused :
        (e : Edit) (s : List WireRecord) (f : Error)
        → e s ≡ err f
        → is skip_apply f ≡ false
        → (prompt_answer s (e s)).result ≢ ok tt
    refused e s f h k r = cc (rw (h, k) at r)

apply-published :
    apply example_dns example_txt prompt some_zone changes published ≡ (ok tt, marked_set)
unfolding apply
apply-published = rw edit-published refl

apply-untouched_example :
    Memᴰ (wire_a "a." none "1") marked_set ⊎ Memᴰ (wire_a "a." (some []) "1") marked_set
unfolding provider_key to_dpf wire_key key_of parse dotted with_dot trim_space trim_left
apply-untouched_example =
    apply-untouched example_dns example_txt prompt own_state prompt-ApplierLaws some_zone changes
      published marked_set (wire_a "a." none "1") apply-published published-NoRepeats
      (Memᴰ.head refl) refl (refl, refl)

apply-added_example :
    (v : WireRecord) × Memᴰ v marked_set
    × (wire_key example_dns v ≡ key_a "c.")
    × HasValues example_txt (record_a "c." "3") v
unfolding provider_key to_dpf parse dotted with_dot trim_space trim_left
apply-added_example =
    apply-added example_dns example_txt prompt own_state prompt-ApplierLaws some_zone changes
      published marked_set (record_a "c." "3") [] [] (key_a "c.") apply-published refl refl refl
      refl refl
