-- ===== src/Api/Forms.antt =====
-- crates/pinveil-server/src/api.rs: the loop of `create` over the parts of the form, against what the
-- parts are.
use pinveil.Base.{
  ◌≤◌, ◌≡◌, refl, sym, ◌∙◌, ap, ◌↔◌, inl, inr, Text, Bool, true, false, Option, none, some, Result,
  ok, err, ◌>>=◌, bind_ok, List, [], ◌∷◌, ◌++◌, append-nil, ok_injective, subst, All, length,
  if◌then◌else◌, Option-cases, Result-cases, arith,
}
use pinveil.Api.{
  Failure, Part, Field, part, unreadable, Slots, no_slots, note_taken, get_or_insert,
  unexpected_part, PartName, blob_part, pin_part, ttl_part, other_part, part_name, fill_slot,
  read_fields, whole_form, settled,
}

-- What reading a part gives: the bytes of a blob or of an unexpected part, the text of the others.
abbrev content : PartName → Part → Result Text Failure
content blob_part p = p.bytes
content pin_part p = p.text
content ttl_part p = p.text
content other_part p = p.bytes

abbrev IsRead : Field → Type 0
IsRead (part p) = (v : Text) × (content (part_name p.name) p ≡ ok v)
IsRead (unreadable f) = ⊥

abbrev one_value : Result Text Failure → List Text
one_value (ok v) = v ∷ []
one_value (err f) = []

abbrev same_name : PartName → PartName → Bool
same_name blob_part blob_part = true
same_name pin_part pin_part = true
same_name ttl_part ttl_part = true
same_name other_part other_part = true
same_name _ _ = false

abbrev value_under : PartName → PartName → Part → List Text
value_under k j p = if same_name k j then one_value (content k p) else []

-- The contents of the parts of one name, in order.
abbrev sent : PartName → List Field → List Text
sent k [] = []
sent k (unreadable f ∷ rest) = sent k rest
sent k (part p ∷ rest) = value_under k (part_name p.name) p ++ sent k rest

-- A form of exactly one blob, one PIN and one TTL, in any order, all of them readable.
pub record IsForm (fields : List Field) (blob pin ttl : Text) : Type 0 where
  pub read : All IsRead fields
  pub blobs : sent blob_part fields ≡ blob ∷ []
  pub pins : sent pin_part fields ≡ pin ∷ []
  pub ttls : sent ttl_part fields ≡ ttl ∷ []
  pub others : sent other_part fields ≡ []

abbrev held : Option Text → List Text
held none = []
held (some v) = v ∷ []

-- The slots after a part of a name was read.
put : PartName → Text → Slots → Slots
put blob_part v s = record s { blob = some v; problem = note_taken s.blob s.problem }
put pin_part v s = record s { pin = some v; problem = note_taken s.pin s.problem }
put ttl_part v s = record s { ttl = some v; problem = note_taken s.ttl s.problem }
put other_part v s = record s { problem = get_or_insert s.problem unexpected_part }

fill_slot-put :
    (k : PartName) (p : Part) (s : Slots) (v : Text)
    → content k p ≡ ok v
    → fill_slot k p s ≡ ok (put k v s)
unfolding fill_slot put
fill_slot-put blob_part p s v h = rw h
fill_slot-put pin_part p s v h = rw h
fill_slot-put ttl_part p s v h = rw h
fill_slot-put other_part p s v h = rw h

fill_slot-ok :
    (k : PartName) (p : Part) (s s' : Slots)
    → fill_slot k p s ≡ ok s'
    → (v : Text) × (content k p ≡ ok v)
unfolding fill_slot
fill_slot-ok k p s s' h = elim (Result-cases (content k p)) [
  | inl (v, e) ↦ (v, e)
  | inr (f, e) ↦ absurd (refused k e h)
]
  where
    refused : (j : PartName) {f : Failure} → content j p ≡ err f → fill_slot j p s ≡ ok s' → ⊥
    refused blob_part e g = ground arith
    refused pin_part e g = ground arith
    refused ttl_part e g = ground arith
    refused other_part e g = ground arith

-- A run over fields that ends without a problem.
record Traced (s s' : Slots) (fields : List Field) : Type 0 where
  clean : s.problem ≡ none
  blobs : held s.blob ++ sent blob_part fields ≡ held s'.blob
  pins : held s.pin ++ sent pin_part fields ≡ held s'.pin
  ttls : held s.ttl ++ sent ttl_part fields ≡ held s'.ttl
  others : sent other_part fields ≡ []

Traced-put :
    (k : PartName) (p : Part) (v : Text) (s s' : Slots) (rest : List Field)
    → part_name p.name ≡ k
    → content k p ≡ ok v
    → Traced (put k v s) s' rest
    → Traced s s' (part p ∷ rest)
unfolding put
Traced-put blob_part p v s s' rest named read t = ground (arith, t)
Traced-put pin_part p v s s' rest named read t = ground (arith, t)
Traced-put ttl_part p v s s' rest named read t = ground (arith, t)
Traced-put other_part p v s s' rest named read t = ground (arith, t)

read_fields-Traced :
    (fields : List Field) (s s' : Slots)
    → read_fields fields s ≡ ok s'
    → s'.problem ≡ none
    → Traced s s' fields
unfolding read_fields
read_fields-Traced [] s s' h clean =
    ground (arith, append-nil (held s.blob), append-nil (held s.pin), append-nil (held s.ttl))
read_fields-Traced (unreadable f ∷ rest) s s' h clean = ground arith
read_fields-Traced (part p ∷ rest) s s' h clean =
    let (mid, (filled, after)) = bind_ok (fill_slot (part_name p.name) p s) _ s' h in
    let (v, e) = fill_slot-ok (part_name p.name) p s mid filled in
    let same : mid ≡ put (part_name p.name) v s =
      ok_injective _ _ (sym filled ∙ fill_slot-put (part_name p.name) p s v e) in
    Traced-put (part_name p.name) p v s s' rest refl e
      (subst (λ t. Traced t s' rest) same (read_fields-Traced rest mid s' after clean))

read_fields-IsRead :
    (fields : List Field) (s s' : Slots) → read_fields fields s ≡ ok s' → All IsRead fields
unfolding read_fields
read_fields-IsRead [] s s' h = tt
read_fields-IsRead (unreadable f ∷ rest) s s' h = ground arith
read_fields-IsRead (part p ∷ rest) s s' h =
    let (mid, (filled, after)) = bind_ok (fill_slot (part_name p.name) p s) _ s' h in
    (fill_slot-ok (part_name p.name) p s mid filled, read_fields-IsRead rest mid s' after)

-- A slot that is not filled twice.
record Fits (s : Slots) (fields : List Field) : Type 0 where
  clean : s.problem ≡ none
  blobs : length (held s.blob ++ sent blob_part fields) ≤ 1
  pins : length (held s.pin ++ sent pin_part fields) ≤ 1
  ttls : length (held s.ttl ++ sent ttl_part fields) ≤ 1
  others : sent other_part fields ≡ []

Fits-put :
    (k : PartName) (p : Part) (v : Text) (s : Slots) (rest : List Field)
    → part_name p.name ≡ k
    → content k p ≡ ok v
    → Fits s (part p ∷ rest)
    → Fits (put k v s) rest
unfolding put
Fits-put blob_part p v s rest named read t = elim (Option-cases s.blob) [
  | inl h ↦ ground (arith, t)
  | inr (w, h) ↦ ground (arith, t)
]
Fits-put pin_part p v s rest named read t = elim (Option-cases s.pin) [
  | inl h ↦ ground (arith, t)
  | inr (w, h) ↦ ground (arith, t)
]
Fits-put ttl_part p v s rest named read t = elim (Option-cases s.ttl) [
  | inl h ↦ ground (arith, t)
  | inr (w, h) ↦ ground (arith, t)
]
Fits-put other_part p v s rest named read t = ground (arith, t)

read_fields_total :
    (fields : List Field) (s : Slots)
    → All IsRead fields
    → Fits s fields
    → (s' : Slots) × (read_fields fields s ≡ ok s') × (s'.problem ≡ none)
unfolding read_fields
read_fields_total [] s r f = (s, refl, f.clean)
read_fields_total (unreadable u ∷ rest) s r f = absurd r.0
read_fields_total (part p ∷ rest) s ((v, e), r) f =
    let (s', done, clean) =
      read_fields_total rest (put (part_name p.name) v s) r
        (Fits-put (part_name p.name) p v s rest refl e f) in
    (s', rw (fill_slot-put (part_name p.name) p s v e) done, clean)

whole_form-ok :
    (x y z : Option Text) (b p t : Text)
    → whole_form x y z ≡ ok (b, p, t)
    → (x ≡ some b) × (y ≡ some p) × (z ≡ some t)
unfolding whole_form
whole_form-ok (some b') (some p') (some t') b p t h = ground arith
whole_form-ok none y z b p t h = ground arith
whole_form-ok (some b') none z b p t h = ground arith
whole_form-ok (some b') (some p') none b p t h = ground arith

unproblematic :
    (s : Slots) (b p t : Text)
    → s.problem ≡ none
    → settled s ≡ ok (b, p, t)
    → whole_form s.blob s.pin s.ttl ≡ ok (b, p, t)
unfolding settled
unproblematic s b p t e h = ground (arith, e)

settled-ok :
    (s : Slots) (b p t : Text)
    → settled s ≡ ok (b, p, t)
    → (s.problem ≡ none) × (s.blob ≡ some b) × (s.pin ≡ some p) × (s.ttl ≡ some t)
unfolding settled
settled-ok s b p t h = elim (Option-cases s.problem) [
  | inl e ↦
      let rest = whole_form-ok s.blob s.pin s.ttl b p t (unproblematic s b p t e h) in
      (e, rest.0, rest.1, rest.2)
  | inr (x, e) ↦ ground (arith, e)
]

held_one : (o : Option Text) (v : Text) → held o ≡ v ∷ [] → o ≡ some v
held_one none v h = ground arith
held_one (some w) v h = ground arith

ok-settled :
    (s : Slots) (b p t : Text)
    → s.problem ≡ none
    → s.blob ≡ some b
    → s.pin ≡ some p
    → s.ttl ≡ some t
    → settled s ≡ ok (b, p, t)
unfolding settled whole_form
ok-settled s b p t clean eb ep et = rw (clean, settled, eb, ep, et)

fits : {fields : List Field} {b p t : Text} → IsForm fields b p t → Fits no_slots fields
fits f = record {
  clean = refl;
  blobs = omega (arith, ap length f.blobs);
  pins = omega (arith, ap length f.pins);
  ttls = omega (arith, ap length f.ttls);
  others = f.others;
}

-- The form of a create is accepted exactly if every part can be read and the parts are one blob,
-- one PIN and one TTL, in any order; the values are theirs.
pub read_fields-IsForm :
    (fields : List Field) (b p t : Text)
    → ((read_fields fields no_slots >>= settled) ≡ ok (b, p, t)) ↔ IsForm fields b p t
read_fields-IsForm fields b p t = (there, back)
  where
    there : (read_fields fields no_slots >>= settled) ≡ ok (b, p, t) → IsForm fields b p t
    there h =
        let (s, (done, last)) = bind_ok (read_fields fields no_slots) settled (b, p, t) h in
        let end = settled-ok s b p t last in
        let traced = read_fields-Traced fields no_slots s done end.0 in
        record {
          read = read_fields-IsRead fields no_slots s done;
          blobs = traced.blobs ∙ ap held end.1;
          pins = traced.pins ∙ ap held end.2;
          ttls = traced.ttls ∙ ap held end.3;
          others = traced.others;
        }

    back : IsForm fields b p t → (read_fields fields no_slots >>= settled) ≡ ok (b, p, t)
    back f =
        let (s, done, clean) = read_fields_total fields no_slots f.read (fits f) in
        let traced = read_fields-Traced fields no_slots s done clean in
        rw done (
          ok-settled s b p t clean (held_one s.blob b (sym traced.blobs ∙ f.blobs))
            (held_one s.pin p (sym traced.pins ∙ f.pins))
            (held_one s.ttl t (sym traced.ttls ∙ f.ttls)))
