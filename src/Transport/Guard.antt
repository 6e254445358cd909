-- ===== src/Transport/Guard.antt =====
-- internal/transport/guard.go: the walk of an outbound body in search of private keys. The PEM
-- scan parse.ContainsPrivateKey and the armor regexp are the parameters `KeyTests`.
use Prim.Native.String.{len, slice}
use dtp_discovery_agent.Common.{
  ◌-◌, String, ◌≡◌, Bool, true, false, ◌||◌, Option, none, some, arith, leb, str_eq, if◌then◌else◌,
  ◌&&◌,
}

-- a decoded JSON document, of which the walk looks at strings, arrays and objects
mutual
  pub data Json : Type 0 where
    scalar : Json  -- null, a Boolean or a number
    str : String → Json
    arr : Items → Json
    obj : Fields → Json

  pub data Items : Type 0 where
    nil : Items
    cons : Json → Items → Items

  pub data Fields : Type 0 where
    end : Fields
    field : String → Json → Fields → Fields

pub record KeyTests : Type 0 where
  pub contains_private_key : String → Bool  -- parse.ContainsPrivateKey
  pub armored : String → Bool  -- privateKeyArmor.MatchString
  pub decode : String → Option Json  -- json.Unmarshal into any

-- strings.HasSuffix
abbrev has_suffix : String → String → Bool
has_suffix s suffix =
    leb (len suffix) (len s) && str_eq (slice s (len s - len suffix) (len s)) suffix

module _ (k : KeyTests) where
  open k use {contains_private_key, armored, decode}

  unfoldable pub string_carries : String → String → Bool
  string_carries name v = if has_suffix name "_pem" then contains_private_key v else armored v

  unfoldable mutual
    pub carries_key : String → Json → Bool
    carries_key name scalar = false
    carries_key name (str v) = string_carries name v
    carries_key name (arr xs) = items_carry name xs
    carries_key name (obj fs) = fields_carry fs

    pub items_carry : String → Items → Bool
    items_carry name nil = false
    items_carry name (cons x xs) = carries_key name x || items_carry name xs

    pub fields_carry : Fields → Bool
    fields_carry end = false
    fields_carry (field key x fs) = (armored key || carries_key key x) || fields_carry fs

  -- true where guardOutbound refuses the body
  unfoldable pub refuses_outbound : String → Bool
  refuses_outbound body = elim (decode body) [
    | none ↦ contains_private_key body
    | some doc ↦ carries_key "" doc
  ]

-- The string `v` stands somewhere in a document, `f` being the field it is judged under: the
-- nearest enclosing object's key, or the name the walk began with.
mutual
  pub data StringIn (f v : String) : String → Json → Type 0 where
    here : {name w : String} → name ≡ f → w ≡ v → StringIn f v name (str w)
    in_arr : {name : String} {xs : Items} → StringInItems f v name xs → StringIn f v name (arr xs)
    in_obj : {name : String} {fs : Fields} → StringInFields f v fs → StringIn f v name (obj fs)

  pub data StringInItems (f v : String) : String → Items → Type 0 where
    head :
        {name : String} {x : Json} {xs : Items}
        → StringIn f v name x
        → StringInItems f v name (cons x xs)
    tail :
        {name : String} {x : Json} {xs : Items}
        → StringInItems f v name xs
        → StringInItems f v name (cons x xs)

  pub data StringInFields (f v : String) : Fields → Type 0 where
    value :
        {key : String} {x : Json} {fs : Fields}
        → StringIn f v key x
        → StringInFields f v (field key x fs)
    later :
        {key : String} {x : Json} {fs : Fields}
        → StringInFields f v fs
        → StringInFields f v (field key x fs)

module _ (k : KeyTests) (f v : String) (bad : string_carries k f v ≡ true) where
  mutual
    unfolding carries_key

    pub carries_key-StringIn :
        {name : String} {doc : Json} → StringIn f v name doc → carries_key k name doc ≡ true
    carries_key-StringIn (here e e') = cc
    carries_key-StringIn (in_arr h) = items_carry-StringIn h
    carries_key-StringIn (in_obj h) = fields_carry-StringIn h

    items_carry-StringIn :
        {name : String} {xs : Items} → StringInItems f v name xs → items_carry k name xs ≡ true
    items_carry-StringIn (head h) = ground (arith, carries_key-StringIn h)
    items_carry-StringIn (tail h) = ground (arith, items_carry-StringIn h)

    fields_carry-StringIn : {fs : Fields} → StringInFields f v fs → fields_carry k fs ≡ true
    fields_carry-StringIn (value h) = ground (arith, carries_key-StringIn h)
    fields_carry-StringIn (later h) = ground (arith, fields_carry-StringIn h)
