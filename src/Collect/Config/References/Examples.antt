-- ===== src/Collect/Config/References/Examples.antt =====
-- References to certificates and keys, on a few values.
use dtp_discovery_agent.Common.{String, ◌≡◌, refl, Option, some, str_eq, if◌then◌else◌, List}
use Prim.Native.Char.{Char}
use dtp_discovery_agent.Common.Text.{split_runes, runes}
use dtp_discovery_agent.Collect.Config.References.{
  without_pins, kept, key_reference, redacted, past_schemes, join_runes, is_public,
}
use dtp_discovery_agent.Collect.Config.References.Secrets.{
  or_empty, Stripped, split_runes-without_pins,
}

-- a PathUnescape of names with no percent sign
abbrev no_percent : String → Option String
no_percent s = some s

pin_is_dropped :
    key_reference no_percent "engine:pkcs11:token=web;pin-value=1234?pin-source=file"
    ≡ "engine:pkcs11:token=web"
unfolding key_reference redacted past_schemes without_pins kept join_runes is_public
pin_is_dropped = refl

-- a PathUnescape that knows one name with a percent sign
abbrev one_percent : String → Option String
one_percent s = some (if str_eq s "pin%2Dvalue" then "pin-value" else s)

decoded_pin_is_dropped :
    key_reference one_percent "pkcs11:token=web;pin%2Dvalue=1234" ≡ "pkcs11:token=web"
unfolding key_reference redacted past_schemes without_pins kept join_runes is_public
decoded_pin_is_dropped = refl

inline_key_is_not_copied :
    key_reference no_percent "DATA:-----BEGIN" ≡ "data: (inline in the configuration)"
unfolding key_reference
inline_key_is_not_copied = refl

split_runes-without_pins_example :
    (attrs : List (List Char)) × (split_runes 59
        (without_pins no_percent ";" (runes "token=web;PIN-value=1234"))
      ≡ or_empty attrs)
    × Stripped no_percent (split_runes 59 (runes "token=web;PIN-value=1234")) attrs
split_runes-without_pins_example =
    split_runes-without_pins no_percent ";" (runes "token=web;PIN-value=1234")
