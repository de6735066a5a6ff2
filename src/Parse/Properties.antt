-- ===== src/Parse/Properties.antt =====
-- mqttpacket.cpp: the loop over the properties of an MQTT 5 packet.
use flash_mq.Base.{
  ℕ, zero, suc, ◌+◌, ◌%◌, List, [], ◌∷◌, ◌++◌, length, get_or, set, ltb, if◌then◌else◌, Option,
  none, some,
}
use flash_mq.Base.Text.{Text, str_eq}
use flash_mq.Packet.{protocol_error, stuck, read_byte, decode_variable_byte_int_at_pos}
use flash_mq.Parse.{
  Reader, pure, throw, throw_if, ◌>>=◌, ◌>>◌, violation, position, within_bound, Settings,
  read_string,
}

module _ {S : Type 0} (property : S → ℕ → Reader S) where
  -- The `while` loop; `property` is the `switch`.
  unfoldable pub properties_loop : ℕ → ℕ → S → Reader S
  properties_loop zero prop_end_at s = throw stuck
  properties_loop (suc fuel) prop_end_at s = do
    more ← within_bound prop_end_at
    if more
        then (do prop ← read_byte; s' ← property s prop; properties_loop fuel prop_end_at s')
        else pure s

  -- A round takes a byte at least.
  unfoldable pub read_properties : S → Reader S
  unfolding properties_loop
  read_properties s = do
    proplen ← decode_variable_byte_int_at_pos
    here ← position
    λ p. properties_loop (suc (length p.bites)) (here + proplen) s p

-- `pcounts`, and `if (pcounts[i]++ > 0) throw`.
abbrev pub Counts : Type 0
Counts = List ℕ

unfoldable pub count_once : ℕ → Counts → Reader Counts
count_once i pcounts = do
  throw_if (ltb 0 (get_or pcounts i 0)) violation
  pure (set pcounts i ((get_or pcounts i 0 + 1) % 256))

module _ {D : Type 0} where
  -- A property that may come once, and one that may be repeated.
  abbrev pub once : ℕ → Counts → Reader D → Reader (D × Counts)
  once i pcounts m = do pcounts' ← count_once i pcounts; d ← m; pure (d, pcounts')

  abbrev pub repeated : Counts → Reader D → Reader (D × Counts)
  repeated pcounts m = do d ← m; pure (d, pcounts)

-- `Publish::userProperties` and `Publish::addUserProperty` of types.cpp.
abbrev pub UserProperties : Type 0
UserProperties = List (Text × Text)

unfoldable pub add_user_property : Text → Text → UserProperties → Reader UserProperties
add_user_property key val ps = do
  throw_if (ltb 50 (length ps)) (protocol_error 131)
  pure (ps ++ (key, val) ∷ [])

unfoldable pub get_first_user_property : Text → UserProperties → Option Text
get_first_user_property key [] = none
get_first_user_property key ((k, v) ∷ ps) =
    if str_eq k key then some v else get_first_user_property key ps

unfoldable pub read_user_property : Settings → UserProperties → Reader UserProperties
unfolding add_user_property
read_user_property settings ps = do
  key ← read_string settings
  val ← read_string settings
  add_user_property key val ps
