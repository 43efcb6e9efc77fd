-- ===== src/Provider/Observed.antt =====
-- internal/provider/provider.go and apply.go with what they log and measure: the whole of `Records`
-- and of `ApplyChanges`, but for the spans.
use external_dns_iij_dpf_web.Base.{
  Bool, List, Option, [], if◌then◌else◌, length, ltb, none, not, some, ℕ, ◌++◌, ◌||◌, ◌∷◌,
}
use external_dns_iij_dpf_web.Base.Text.{Text, codes}
use external_dns_iij_dpf_web.Calls.{Call, and_then, lift, pure, wrapping}
use external_dns_iij_dpf_web.Config.Settings.{debug_level, info_level}
use external_dns_iij_dpf_web.Dnsname.Name.{Dns}
use external_dns_iij_dpf_web.Dnsname.Scope.{Scope, is_empty_scope}
use external_dns_iij_dpf_web.Errors.{is_ok, ok}
use external_dns_iij_dpf_web.Provider.Apply.{
  Part, ZoneGroup, creating, deleting, filter_to_scope, group_by_zone, part_of, updating,
}
use external_dns_iij_dpf_web.Provider.Backend.{Backend}
use external_dns_iij_dpf_web.Provider.Service.{gather}
use external_dns_iij_dpf_web.Provider.Txt.{TxtCodec}
use external_dns_iij_dpf_web.Provider.Types.{
  ChangeSet, Record, RecordKey, Zone, is_empty_changes, key,
}
use external_dns_iij_dpf_web.Provider.Validate.{validate_format}
use external_dns_iij_dpf_web.Provider.Zoneindex.{new_zone_index}
use external_dns_iij_dpf_web.Telemetry.Metrics.{op_create, op_delete, op_update}
use external_dns_iij_dpf_web.Telemetry.Slog.{
  LogValue, Logger, fields_of, int_value, text_value, texts_value,
}

-- `Recorder`.
pub record Recorder (R : Type 0) : Type 0 where
  pub record_changes : Text → Bool → ℕ → R → R
  pub record_apply_failure : R → R

pub record Provider (S L R : Type 0) : Type 0 where
  pub scope : Scope
  pub backend : Backend S
  pub logger : Logger L
  pub metrics : Option (Recorder R)

-- The states behind the backend, the logger and the recorder.
pub record World (S L R : Type 0) : Type 0 where
  pub behind : S
  pub lines : L
  pub measured : R

module _ {S L R : Type 0} where
  unfoldable pub new_provider : Scope → Backend S → Logger L → Provider S L R
  new_provider scope backend logger = record {
    scope = scope;
    backend = backend;
    logger = logger;
    metrics = none;
  }

  unfoldable pub with_telemetry : Option (Recorder R) → Provider S L R → Provider S L R
  with_telemetry metrics p = record p { metrics = metrics }

-- The attributes of a record in a line.
abbrev pub record_fields : Record → List (Text × LogValue)
record_fields r =
    (codes "name", text_value r.name.canonical)
    ∷ (codes "type", text_value r.rtype)
    ∷ (codes "ttl", int_value r.ttl)
    ∷ (codes "values", texts_value r.values)
    ∷ []

-- `RecordKey.String`, and `recordNames`.
unfoldable pub key_string : RecordKey → Text
key_string k = k.name.canonical ++ (codes " " ++ k.rtype)

unfoldable pub record_names : List Record → List Text
unfolding key_string
record_names [] = []
record_names (r ∷ rs) = key_string (key r) ∷ record_names rs

-- The key of the map's entry for a part of a change set; its value is the part.
abbrev pub op_of : Part → Text
op_of creating = op_create
op_of updating = op_update
op_of deleting = op_delete

module _ {S L R : Type 0} (p : Provider S L R) where
  -- A line for each record, behind what stands before the attributes of the record.
  unfoldable pub log_each : Text → List (Text × LogValue) → List Record → L → L
  log_each message before [] l = l
  log_each message before (r ∷ rs) l = log_each message before rs (
      p.logger.write
        (record {
          level = debug_level;
          message = message;
          attrs = fields_of (before ++ record_fields r);
        })
        l)

  unfoldable pub log_records : List Record → L → L
  unfolding log_each
  log_records rs l =
      if not (p.logger.enabled debug_level) then l else log_each (codes "レコードを返します") [] rs l

  abbrev log_op : Text → List Record → L → L
  log_op op rs l = log_each (codes "変更セットを受け取りました") ((codes "op", text_value op) ∷ []) rs l

  unfoldable pub log_change_set : ChangeSet → L → L
  unfolding log_each
  log_change_set cs l =
      if not (p.logger.enabled debug_level)
      then l
      else log_op op_delete cs.remove (log_op op_update cs.update_to (log_op op_create cs.create l))

  unfoldable pub log_apply : Zone → ChangeSet → L → L
  unfolding record_names
  log_apply zone cs l =
      p.logger.write
        (record {
          level = info_level;
          message = codes "DNS レコードを変更します";
          attrs = fields_of (
              (codes "zone", text_value zone.name.canonical)
              ∷ (codes "create", texts_value (record_names cs.create))
              ∷ (codes "update", texts_value (record_names cs.update_to))
              ∷ (codes "delete", texts_value (record_names cs.remove))
              ∷ []);
        })
        l

-- The loop over the map, in the order in which the map is gone through.
unfoldable pub record_parts : {R : Type 0} → Recorder R → List Part → ChangeSet → Bool → R → R
record_parts m [] cs success r = r
record_parts m (part ∷ order) cs success r =
    let count = length (part_of part cs) in
    record_parts m order cs success
      (if ltb 0 count then m.record_changes (op_of part) success count r else r)

unfoldable pub record_outcome :
    {R : Type 0} → Option (Recorder R) → List Part → ChangeSet → Bool → R → R
unfolding record_parts
record_outcome none order cs success r = r
record_outcome (some m) order cs success r =
    let recorded = record_parts m order cs success r in
    if not success then m.record_apply_failure recorded else recorded

module _ {S L R A : Type 0} where
  -- A call of the backend.
  unfoldable pub on_backend : Call S A → Call (World S L R) A
  on_backend m w = let (r, s) = m w.behind in (r, record w { behind = s })

module _ {S L R : Type 0} where
  unfoldable pub on_lines : (L → L) → World S L R → World S L R
  on_lines f w = record w { lines = f w.lines }

-- `order` is the order in which `recordOutcome` goes through its map, which Go does not settle: it
-- may be another one each time.
module _ {S L R : Type 0} (d : Dns) (p : Provider S L R) (order : R → ChangeSet → List Part) where
  unfoldable pub observed_records : Call (World S L R) (List Record)
  unfolding gather log_records on_backend on_lines
  observed_records =
      if is_empty_scope p.scope
      then pure []
      else and_then (on_backend p.backend.list_zones) λ zones.
        and_then (on_backend (gather d p.scope p.backend (new_zone_index zones) zones))
          λ out w. (ok out, on_lines (log_records p out) w)

  -- A turn of the loop over the groups, up to the return.
  unfoldable pub apply_group : ZoneGroup → Call (World S L R) (Unit {0})
  unfolding log_apply on_backend on_lines record_outcome
  apply_group g w =
      let (answer, w') =
        on_backend (p.backend.apply g.zone g.changes) (on_lines (log_apply p g.zone g.changes) w) in
      (
        answer,
        record w' {
          measured =
              record_outcome p.metrics (order w'.measured g.changes) g.changes (is_ok answer)
                w'.measured;
        },
      )

  unfoldable pub observed_groups : List ZoneGroup → Call (World S L R) (Unit {0})
  unfolding apply_group
  observed_groups [] = pure tt
  observed_groups (g ∷ gs) = and_then (wrapping (apply_group g)) λ u. observed_groups gs

  unfoldable pub observed_in_scope : TxtCodec → ChangeSet → Call (World S L R) (Unit {0})
  unfolding observed_groups
  observed_in_scope t cs = and_then (lift (validate_format d t cs)) λ u.
      and_then (on_backend p.backend.list_zones)
        λ zones. and_then (lift (group_by_zone d cs zones)) λ groups. observed_groups groups

  unfoldable pub observed_changes : TxtCodec → ChangeSet → Call (World S L R) (Unit {0})
  unfolding observed_in_scope log_change_set
  observed_changes t cs w =
      let logged = on_lines (log_change_set p cs) w in
      let inside = filter_to_scope d p.scope cs in
      if is_empty_changes cs || is_empty_scope p.scope
      then (ok tt, w)
      else if is_empty_changes inside
      then (ok tt, logged)
      else observed_in_scope t inside logged
