-- ===== src/Adapters/Fingerprint/Order.antt =====
-- The order in which a payload lists the fields of its object does not matter.
use nitip_cuy.Prelude.{◌≡◌, ◌≢◌, refl, ◌∙◌, ap, true, false, List, [], ◌∷◌, arith}
use nitip_cuy.Text.{Text}
use nitip_cuy.Adapters.Fingerprint.{
  Hashing, Payload, Fields, field, text_leb, Rendered, insert_field, sort_fields, canonicalize,
  canonical_fields, command_fingerprint,
}

text_leb_total : (s t : Text) → text_leb s t ≡ false → text_leb t s ≡ true
unfolding text_leb
text_leb_total [] t h = ground arith
text_leb_total (c ∷ s) [] h = ground arith
text_leb_total (c ∷ s) (d ∷ t) h = ground (arith, text_leb_total s t)

text_leb_antisym : (s t : Text) → text_leb s t ≡ true → text_leb t s ≡ true → s ≡ t
unfolding text_leb
text_leb_antisym [] [] h k = refl
text_leb_antisym [] (d ∷ t) h k = ground arith
text_leb_antisym (c ∷ s) [] h k = ground arith
text_leb_antisym (c ∷ s) (d ∷ t) h k = ground (arith, text_leb_antisym s t)

text_leb_trans : (s t u : Text) → text_leb s t ≡ true → text_leb t u ≡ true → text_leb s u ≡ true
unfolding text_leb
text_leb_trans [] t u h k = ground arith
text_leb_trans (c ∷ s) [] u h k = ground arith
text_leb_trans (c ∷ s) (d ∷ t) [] h k = ground arith
text_leb_trans (c ∷ s) (d ∷ t) (e ∷ u) h k = ground (arith, text_leb_trans s t u)

-- Two fields of different names are inserted in either order.
insert_comm :
    (f g : Rendered) (hs : List Rendered)
    → f.0 ≢ g.0
    → insert_field f (insert_field g hs) ≡ insert_field g (insert_field f hs)
unfolding insert_field
insert_comm f g [] n = ground (arith, text_leb_total f.0 g.0, text_leb_antisym f.0 g.0)
insert_comm f g (h ∷ hs) n = ground (
  arith,
  text_leb_total f.0 g.0,
  text_leb_antisym f.0 g.0,
  text_leb_total f.0 h.0,
  text_leb_total g.0 h.0,
  text_leb_trans f.0 g.0 h.0,
  text_leb_trans g.0 f.0 h.0,
  text_leb_trans f.0 h.0 g.0,
  text_leb_trans g.0 h.0 f.0,
  insert_comm f g hs n,
)

-- The second object lists the fields of the first in another order: neighbours of different names
-- change places, any number of times.
pub data Reordered : Fields → Fields → Type 0 where
  same : (fs : Fields) → Reordered fs fs
  swap :
      (j k : Text) (v w : Payload) (fs : Fields)
      → j ≢ k
      → Reordered (field j v (field k w fs)) (field k w (field j v fs))
  under :
      (k : Text) (v : Payload) {fs gs : Fields}
      → Reordered fs gs
      → Reordered (field k v fs) (field k v gs)
  chain : {fs gs hs : Fields} → Reordered fs gs → Reordered gs hs → Reordered fs hs

sort-Reordered :
    (h : Hashing) {fs gs : Fields}
    → Reordered fs gs
    → sort_fields (canonical_fields h fs) ≡ sort_fields (canonical_fields h gs)
unfolding sort_fields canonical_fields
sort-Reordered h (same fs) = refl
sort-Reordered h (swap j k v w fs n) =
    insert_comm (j, canonicalize h v) (k, canonicalize h w) (sort_fields (canonical_fields h fs)) n
sort-Reordered h (under k v {fs} {gs} r) =
    ap (insert_field (k, canonicalize h v)) (sort-Reordered h r)
sort-Reordered h (chain r t) = sort-Reordered h r ∙ sort-Reordered h t

-- A command's fingerprint, or the error of computing it, does not depend on the order in which the
-- fields of its payload are listed.
pub fingerprint-Reordered :
    (h : Hashing) (fs gs : Fields)
    → Reordered fs gs
    → command_fingerprint h fs ≡ command_fingerprint h gs
unfolding command_fingerprint canonicalize
fingerprint-Reordered h fs gs r = rw (sort-Reordered h r)
