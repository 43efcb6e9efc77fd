-- ===== src/Telemetry/Slog.antt =====
-- What the program uses of the package log/slog: attributes, records, handlers and loggers. The
-- context that a call carries and the time of a record are left out.
use external_dns_iij_dpf_web.Base.{Bool, List, [], if◌then◌else◌, leb, ℕ, ◌++◌, ◌∷◌}
use external_dns_iij_dpf_web.Base.Int.{ℤ}
use external_dns_iij_dpf_web.Base.Text.{Text}
use external_dns_iij_dpf_web.Config.Settings.{
  Level, debug_level, error_level, info_level, warn_level,
}
use external_dns_iij_dpf_web.Errors.{Error, Result, ok}

-- `slog.Value`, but for groups.
pub data LogValue : Type 0 where
  text_value : Text → LogValue
  int_value : ℤ → LogValue
  bool_value : Bool → LogValue
  texts_value : List Text → LogValue
  error_value : Error → LogValue

-- `slog.Attr`: a value or a group of attributes under a key.
mutual
  pub data Attr : Type 0 where
    attr : Text → LogValue → Attr
    group : Text → Attrs → Attr

  pub data Attrs : Type 0 where
    no_attrs : Attrs
    more_attrs : Attr → Attrs → Attrs

abbrev pub append_attrs : Attrs → Attrs → Attrs
append_attrs no_attrs more = more
append_attrs (more_attrs a rest) more = more_attrs a (append_attrs rest more)

-- What a `JSONHandler` makes of an attribute with the option `ReplaceAttr`: a group is not given to
-- the function itself, the attributes of it are, each with the keys of the groups around it.
unfoldable mutual
  pub replace_attr : (List Text → Attr → Attr) → List Text → Attr → Attr
  replace_attr f groups (attr k v) = f groups (attr k v)
  replace_attr f groups (group k more) = group k (replace_attrs f (groups ++ k ∷ []) more)

  pub replace_attrs : (List Text → Attr → Attr) → List Text → Attrs → Attrs
  replace_attrs f groups no_attrs = no_attrs
  replace_attrs f groups (more_attrs a rest) =
      more_attrs (replace_attr f groups a) (replace_attrs f groups rest)

abbrev pub rank : Level → ℕ
rank debug_level = 0
rank info_level = 1
rank warn_level = 2
rank error_level = 3

-- `slog.Record`, and a line that is written for one.
pub record LogRecord : Type 0 where
  pub level : Level
  pub message : Text
  pub attrs : Attrs

-- `slog.Handler`: `H` is the handler's own state, `S` is that of what it writes to.
pub record HandlerOf (H S : Type 0) : Type 0 where
  pub enabled : H → Level → Bool
  pub handle : H → LogRecord → S → Result (Unit {0}) × S
  pub with_attrs : H → Attrs → H
  pub with_group : H → Text → H

-- `slog.JSONHandler`: the least level, the option `ReplaceAttr`, and what `WithAttrs` and
-- `WithGroup` have put around the attributes of a record, replaced already, with the keys of the
-- open groups.
pub record JsonHandler : Type 0 where
  pub least : Level
  pub replace : List Text → Attr → Attr
  pub groups : List Text
  pub around : Attrs → Attrs

abbrev pub new_json_handler : Level → (List Text → Attr → Attr) → JsonHandler
new_json_handler least replace = record {
  least = least;
  replace = replace;
  groups = [];
  around = λ more. more;
}

unfoldable pub json_line : JsonHandler → LogRecord → LogRecord
json_line h r = record r { attrs = h.around (replace_attrs h.replace h.groups r.attrs) }

unfoldable pub json_with_attrs : JsonHandler → Attrs → JsonHandler
json_with_attrs h more = record h {
  around = λ inner. h.around (append_attrs (replace_attrs h.replace h.groups more) inner);
}

unfoldable pub json_with_group : JsonHandler → Text → JsonHandler
json_with_group h k = record h {
  groups = h.groups ++ k ∷ [];
  around = λ inner. h.around (more_attrs (group k inner) no_attrs);
}

-- The writer is the list of the lines that were written to it.
unfoldable pub json_handler : HandlerOf JsonHandler (List LogRecord)
json_handler = record {
  enabled = λ h level. leb (rank h.least) (rank level);
  handle = λ h r lines. (ok tt, lines ++ json_line h r ∷ []);
  with_attrs = json_with_attrs;
  with_group = json_with_group;
}

-- The attributes of a call, under their keys.
abbrev pub fields_of : List (Text × LogValue) → Attrs
fields_of [] = no_attrs
fields_of ((k, v) ∷ more) = more_attrs (attr k v) (fields_of more)

-- What is called on a `slog.Logger`: a record is logged, or a logger with attributes or in a group
-- is made of it and used from then on.
pub data LogCall : Type 0 where
  logging : LogRecord → LogCall
  adding_attrs : Attrs → LogCall
  opening_group : Text → LogCall

module _ {H S : Type 0} (o : HandlerOf H S) where
  -- `Logger.log`: the handler's error is dropped.
  unfoldable pub log : H → LogRecord → S → S
  log h r s = let (answer, s') = o.handle h r s in if o.enabled h r.level then s' else s

  unfoldable pub log_call : LogCall → H × S → H × S
  unfolding log
  log_call (logging r) (h, s) = (h, log h r s)
  log_call (adding_attrs more) (h, s) = (o.with_attrs h more, s)
  log_call (opening_group k) (h, s) = (o.with_group h k, s)

  unfoldable pub log_calls : List LogCall → H × S → H × S
  unfolding log_call
  log_calls [] p = p
  log_calls (c ∷ cs) p = log_calls cs (log_call c p)

-- What a part of the program does with its `*slog.Logger`.
pub record Logger (L : Type 0) : Type 0 where
  pub enabled : Level → Bool
  pub write : LogRecord → L → L

-- A logger that is used as it stands, over a handler.
abbrev pub logger_of : {H L : Type 0} → HandlerOf H L → H → Logger L
logger_of o h = record { enabled = o.enabled h; write = λ r l. log o h r l }
