-- ===== src/Adapters/Fingerprint.antt =====
-- packages/adapters/src/idempotency-support.ts: `commandFingerprint` and `canonicalize`.
--
-- `JSON.stringify` of a string and of a number, and SHA-256, are the runtime's, and the model's
-- parameters. The fields of an object are a list of names, each with its value.
pub mod Order
use nitip_cuy.Prelude.{
  ℕ, suc, ℤ, pos, negsuc, Bool, true, false, ◌&&◌, ◌||◌, not, String, Option, none, some, List, [],
  ◌∷◌, ◌++◌, map, ◌==◌, ltb, leb, if◌then◌else◌,
}
use nitip_cuy.Text.{Text, lit}
use nitip_cuy.Text.Decimal.{decimal_text}
use nitip_cuy.Number.{Number, nan, infinite, decimal, is_finite}
use nitip_cuy.Failure.{Result, ok, err, ◌>>=◌, plain, fixed}

pub record Hashing : Type 0 where
  -- `JSON.stringify(value)` of a string and of a finite number
  pub json_string : Text → Text
  pub json_number : Number → Text
  -- `createHash("sha256").update(value).digest("hex")` of a string and of bytes
  pub sha256_text : Text → Text
  pub sha256_bytes : List ℕ → Text

-- The values that `canonicalize` tells apart.
mutual
  pub data Payload : Type 0 where
    null_value : Payload
    string_value : Text → Payload
    boolean_value : Bool → Payload
    number_value : Number → Payload
    bigint_value : ℤ → Payload
    bytes_value : List ℕ → Payload
    array_value : Items → Payload
    object_value : Fields → Payload
    -- an object with another prototype, and a value of another type
    foreign_object unsupported_value : Payload

  pub data Items : Type 0 where
    no_item : Items
    item : Payload → Items → Items

  pub data Fields : Type 0 where
    no_field : Fields
    field : Text → Payload → Fields → Fields

-- `items.join(",")`
unfoldable pub join : List Text → Text
join [] = []
join (s ∷ []) = s
join (s ∷ t ∷ ts) = s ++ (b',' ∷ join (t ∷ ts))

-- Whether `s` comes before `t`, or is `t`, by UTF-16 code units: the order of `sort()`.
unfoldable pub text_leb : Text → Text → Bool
text_leb [] t = true
text_leb (c ∷ s) [] = false
text_leb (c ∷ s) (d ∷ t) = ltb c d || ((c == d) && text_leb s t)

-- A field's name, and its value in canonical form.
abbrev pub Rendered : Type 0
Rendered = Text × Result Text

unfoldable pub insert_field : Rendered → List Rendered → List Rendered
insert_field f [] = f ∷ []
insert_field f (g ∷ gs) =
    let rest = insert_field f gs in if text_leb f.0 g.0 then f ∷ g ∷ gs else g ∷ rest

-- `Object.keys(record).sort()`; the names of an object's fields are distinct.
unfoldable pub sort_fields : List Rendered → List Rendered
unfolding insert_field
sort_fields [] = []
sort_fields (f ∷ fs) = insert_field f (sort_fields fs)

-- The fields' texts in order, or the error of the first that has one.
unfoldable pub render_fields : Hashing → List Rendered → Result (List Text)
render_fields h [] = ok []
render_fields h ((name, value) ∷ fs) = do
  text ← value
  texts ← render_fields h fs
  ok ((h.json_string name ++ (b':' ∷ text)) ∷ texts)

-- Whether the value is -0.
abbrev is_minus_zero : Number → Bool
is_minus_zero (decimal true digits places) = digits == 0
is_minus_zero _ = false

abbrev quoted : String → Text → Text → Text
quoted before text after = lit before ++ (text ++ after)

-- `value.toString()`
unfoldable pub bigint_text : ℤ → Text
bigint_text (pos n) = decimal_text n
bigint_text (negsuc n) = b'-' ∷ decimal_text (suc n)

unfoldable mutual
  unfolding join sort_fields render_fields bigint_text

  pub canonicalize : Hashing → Payload → Result Text
  canonicalize h null_value = ok (lit "null")
  canonicalize h (string_value s) = ok (lit "string:" ++ h.json_string s)
  canonicalize h (boolean_value b) = ok (if b then lit "boolean:true" else lit "boolean:false")
  canonicalize h (number_value n) =
      if not (is_finite n)
      then err (plain (fixed "Idempotency payload contains a non-finite number."))
      else ok (lit "number:" ++ (if is_minus_zero n then lit "-0" else h.json_number n))
  canonicalize h (bigint_value n) = ok (lit "bigint:" ++ bigint_text n)
  canonicalize h (bytes_value bytes) =
      ok (quoted "bytes:[" (join (map decimal_text bytes)) (lit "]"))
  canonicalize h (array_value items) = do
    texts ← canonical_items h items
    ok (quoted "array:[" (join texts) (lit "]"))
  canonicalize h (object_value fields) = do
    texts ← render_fields h (sort_fields (canonical_fields h fields))
    ok (quoted "object:{" (join texts) (lit "}"))
  canonicalize h foreign_object =
      err (plain (fixed "Idempotency payload contains a non-plain object."))
  canonicalize h unsupported_value =
      err (plain (fixed "Idempotency payload contains an unsupported value."))

  pub canonical_items : Hashing → Items → Result (List Text)
  canonical_items h no_item = ok []
  canonical_items h (item value rest) = do
    text ← canonicalize h value
    texts ← canonical_items h rest
    ok (text ∷ texts)

  pub canonical_fields : Hashing → Fields → List Rendered
  canonical_fields h no_field = []
  canonical_fields h (field name value rest) =
      (name, canonicalize h value) ∷ canonical_fields h rest

unfoldable pub command_fingerprint : Hashing → Fields → Result Text
unfolding canonicalize
command_fingerprint h payload = do
  text ← canonicalize h (object_value payload)
  ok (h.sha256_text text)
