-- ===== src/Examples/Codec.antt =====
-- A text for each link-layer message, from which it is read back.
use goby3_examples.Base.{
  ℕ, zero, suc, ◌≡◌, refl, ap, ◌∙◌, Bool, true, false, Option, some, none, List, [], ◌∷◌, ◌++◌,
  length, append_assoc, append-nil, sym,
}
use goby3_examples.Base.Int.{ℤ, pos, negsuc}
use goby3_examples.Base.Text.{Text}
use goby3_examples.Modem.{
  ModemTransmission, TransmissionType, data_type, ack_type, driver_specific, MicromodemType,
  remus_lbl_ranging, narrowband_lbl_ranging,
}
use goby3_examples.Multicast.{Wire}
use goby3_examples.Multicast.Exchange.{RoundTrips}

pub record Codec (A : Type 0) : Type 0 where
  pub write : A → Text
  pub read : Text → A × Text
  pub read-write : (a : A) (s : Text) → read (write a ++ s) ≡ (a, s)

abbrev head : Text → ℕ × Text
head [] = (0, [])
head (c ∷ s) = (c, s)

abbrev number : Codec ℕ
number = record { write = λ n. n ∷ []; read = head; read-write = λ n s. refl }

abbrev pair : {A B : Type 0} → Codec A → Codec B → Codec (A × B)
pair a b = record {
  write = λ p. a.write p.0 ++ b.write p.1;
  read = λ s. let (x, t) = a.read s in let (y, u) = b.read t in ((x, y), u);
  read-write = λ p s.
      rw
        (
          append_assoc (a.write p.0) (b.write p.1) s,
          a.read-write p.0 (b.write p.1 ++ s),
          b.read-write p.1 s,
        )
        refl;
}

-- A type whose items stand for those of another one.
abbrev through :
    {A B : Type 0} (to : A → B) (from : B → A) → ((a : A) → from (to a) ≡ a) → Codec B → Codec A
through to from h b = record {
  write = λ a. b.write (to a);
  read = λ s. let (y, t) = b.read s in (from y, t);
  read-write = λ a s. rw (b.read-write (to a) s, h a) refl;
}

abbrev bit : Bool → ℕ
bit true = 1
bit false = 0

abbrev to_bit : ℕ → Bool
to_bit zero = false
to_bit (suc n) = true

bit_back : (b : Bool) → to_bit (bit b) ≡ b
bit_back true = refl
bit_back false = refl

abbrev flag : Codec Bool
flag = through bit to_bit bit_back number

abbrev code_of_type : TransmissionType → ℕ
code_of_type data_type = 0
code_of_type ack_type = 1
code_of_type driver_specific = 2

abbrev to_type : ℕ → TransmissionType
to_type zero = data_type
to_type (suc zero) = ack_type
to_type (suc (suc n)) = driver_specific

type_back : (t : TransmissionType) → to_type (code_of_type t) ≡ t
type_back data_type = refl
type_back ack_type = refl
type_back driver_specific = refl

abbrev is_remus : MicromodemType → Bool
is_remus remus_lbl_ranging = true
is_remus narrowband_lbl_ranging = false

abbrev to_ranging : Bool → MicromodemType
to_ranging true = remus_lbl_ranging
to_ranging false = narrowband_lbl_ranging

ranging_back : (t : MicromodemType) → to_ranging (is_remus t) ≡ t
ranging_back remus_lbl_ranging = refl
ranging_back narrowband_lbl_ranging = refl

abbrev sign_and_size : ℤ → Bool × ℕ
sign_and_size (pos n) = (true, n)
sign_and_size (negsuc n) = (false, n)

abbrev to_ℤ : Bool × ℕ → ℤ
to_ℤ (true, n) = pos n
to_ℤ (false, n) = negsuc n

ℤ_back : (z : ℤ) → to_ℤ (sign_and_size z) ≡ z
ℤ_back (pos n) = refl
ℤ_back (negsuc n) = refl

abbrev integer : Codec ℤ
integer = through sign_and_size to_ℤ ℤ_back (pair flag number)

-- So many items, one after the other.
abbrev read_items : {A : Type 0} → (Text → A × Text) → ℕ → Text → List A × Text
read_items f zero s = ([], s)
read_items f (suc n) s = let (x, t) = f s in let (xs, u) = read_items f n t in (x ∷ xs, u)

abbrev write_items : {A : Type 0} → (A → Text) → List A → Text
write_items f [] = []
write_items f (x ∷ xs) = f x ++ write_items f xs

items_back :
    {A : Type 0} (a : Codec A) (xs : List A) (s : Text)
    → read_items a.read (length xs) (write_items a.write xs ++ s) ≡ (xs, s)
items_back a [] s = refl
items_back a (x ∷ xs) s =
    rw
      (
        append_assoc (a.write x) (write_items a.write xs) s,
        a.read-write x (write_items a.write xs ++ s),
        items_back a xs s,
      )
      refl

abbrev list : {A : Type 0} → Codec A → Codec (List A)
list a = record {
  write = λ xs. length xs ∷ write_items a.write xs;
  read = λ s. let (n, t) = head s in read_items a.read n t;
  read-write = items_back a;
}

abbrev to_list : {A : Type 0} → Option A → List A
to_list none = []
to_list (some a) = a ∷ []

abbrev first : {A : Type 0} → List A → Option A
first [] = none
first (a ∷ rest) = some a

first-to_list : {A : Type 0} (o : Option A) → first (to_list o) ≡ o
first-to_list none = refl
first-to_list (some a) = refl

abbrev option : {A : Type 0} → Codec A → Codec (Option A)
option a = through to_list first first-to_list (list a)

abbrev kind : Codec (TransmissionType × Option MicromodemType)
kind =
    pair (through code_of_type to_type type_back number)
      (option (through is_remus to_ranging ranging_back flag))

abbrev fields :
    ModemTransmission
    → (TransmissionType × Option MicromodemType)
      × ((ℤ × (ℤ × ℤ)) × ((Bool × ℕ) × (((Option ℕ × Option ℕ) × Option ℤ) × (List Text × List ℤ))))
fields m = (
  (m.type, m.micromodem_type),
  (
    (m.src, (m.dest, m.rate)),
    (
      (m.ack_requested, m.slot_seconds),
      (((m.frame_start, m.max_num_frames), m.max_frame_bytes), (m.frame, m.acked_frame)),
    ),
  ),
)

abbrev of_fields :
    (TransmissionType × Option MicromodemType)
      × ((ℤ × (ℤ × ℤ)) × ((Bool × ℕ) × (((Option ℕ × Option ℕ) × Option ℤ) × (List Text × List ℤ))))
    → ModemTransmission
of_fields
      (
        (type, micro),
        ((src, (dest, rate)), ((ack, slot), (((start, most), bytes), (frame, acked)))),
      ) =
    record {
      type = type;
      src = src;
      dest = dest;
      rate = rate;
      ack_requested = ack;
      frame_start = start;
      max_frame_bytes = bytes;
      max_num_frames = most;
      frame = frame;
      acked_frame = acked;
      slot_seconds = slot;
      micromodem_type = micro;
    }

abbrev message : Codec ModemTransmission
message =
    through fields of_fields (λ m. refl)
      (pair kind (
        pair (pair integer (pair integer integer)) (
          pair (pair flag number) (
            pair (pair (pair (option number) (option number)) (option integer))
              (pair (list (list number)) (list integer))))))

pub codec : Wire
codec = record { serialize = message.write; parse = λ s. (message.read s).0 }

pub codec-RoundTrips : (m : ModemTransmission) → RoundTrips codec m
unfolding codec
codec-RoundTrips m =
    ap (λ s. (message.read s).0) (sym (append-nil (message.write m)))
    ∙ ap (λ p. p.0) (message.read-write m [])

-- A list of texts in one text.
pub texts : Codec (List Text)
texts = list (list number)

pub texts_back : (ts : List Text) → (texts.read (texts.write ts)).0 ≡ ts
texts_back ts =
    ap (λ s. (texts.read s).0) (sym (append-nil (texts.write ts)))
    ∙ ap (λ p. p.0) (texts.read-write ts [])
