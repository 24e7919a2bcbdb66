-- ===== src/Broker/Redact.antt =====
-- sandbox/broker.py: `_redact_string` and `RequestBroker._redact_value`.
use strange_claw.Prelude.{List, [], ◌∷◌}
use strange_claw.Text.{Text, codes, replace}
use strange_claw.Value.{
  Value, null, boolean, int, float, str, list, tuple, dict, Items, nil, cons, Dict, empty, entry,
  Key, name, other, put,
}
pub mod Clean

abbrev pub redaction : Text
redaction = codes "[REDACTED]"

-- The tokens replace one after the other, in the order of the list.
pub redact_string : List Text → Text → Text
redact_string [] s = s
redact_string (t ∷ ts) s = redact_string ts (replace t redaction s)

redact_key : List Text → Key → Key
unfolding redact_string
redact_key ts (name s) = name (redact_string ts s)
redact_key ts (other n) = other n

mutual
  pub walk : List Text → Value → Value
  walk ts null = null
  walk ts (boolean b) = boolean b
  walk ts (int n) = int n
  walk ts (float n) = float n
  walk ts (str s) = str (redact_string ts s)
  walk ts (list xs) = list (walk_items ts xs)
  walk ts (tuple xs) = tuple (walk_items ts xs)
  walk ts (dict d) = dict (walk_dict ts empty d)

  pub walk_items : List Text → Items → Items
  walk_items ts nil = nil
  walk_items ts (cons v xs) = cons (walk ts v) (walk_items ts xs)

  -- Keys that become equal by redaction share one entry: the later value stays.
  pub walk_dict : List Text → Dict → Dict → Dict
  walk_dict ts acc empty = acc
  walk_dict ts acc (entry k v d) = walk_dict ts (put (redact_key ts k) (walk ts v) acc) d

-- With no tokens the value itself comes back.
pub redact_value : List Text → Value → Value
redact_value [] v = v
redact_value (t ∷ ts) v = walk (t ∷ ts) v
