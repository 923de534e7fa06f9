-- ===== src/Reader/Laws.antt =====
-- What a reader takes from the front of a span, whatever stands behind it.
use mathlib.Core.Path.{subst}
use nebula_fs.Common.{
  ℕ, ◌+◌, ◌%◌, ◌^◌, ◌<◌, ◌≤◌, ◌≡◌, refl, ap, ◌∙◌, List, [], ◌∷◌, ◌++◌, append_assoc, append-nil,
  ltb-false, length, length-append, take-append, drop-append, All, map, arith,
}
use nebula_fs.Outcome.{ok}
use nebula_fs.VarInt.{IsU64, varint}
use nebula_fs.VarInt.Encode.{length-varint}
use nebula_fs.VarInt.RoundTrip.{decode-encode}
use nebula_fs.Reader.{
  Reader, ◌>>=◌, pure, read_varint, need_more, read_byte, read_text, repeat, run, reserve,
}

-- `m` reads exactly `bytes` and returns `a`, in every span of less than 2 ^ 64 bytes.
pub record Reads {ℓ} {A : Type ℓ} (m : Reader A) (bytes : List ℕ) (a : A) : Type ℓ where
  pub at :
      (pos : ℕ) (rest : List ℕ)
      → pos + length bytes + length rest < 2 ^ 64
      → m (pos, bytes ++ rest) ≡ ok (a, (pos + length bytes, rest))

module _ {ℓ} {A : Type ℓ} where
  pub Reads-pure : (a : A) → Reads (pure a) [] a
  Reads-pure a = record { at = λ pos rest fits. ap (λ p. ok (a, (p, rest))) (omega arith) }

  pub Reads-bind {κ} :
      {B : Type κ} (m : Reader A) (f : A → Reader B) {xs ys : List ℕ} {a : A} {b : B}
      → Reads m xs a
      → Reads (f a) ys b
      → Reads (m >>= f) (xs ++ ys) b
  Reads-bind m f {xs} {ys} {a} {b} h k = record {
    at = λ pos rest fits.
        let len = length-append xs ys in
        rw
          (
            append_assoc xs ys rest,
            h.at pos (ys ++ rest) (omega (arith, len, length-append ys rest)),
            ◌>>=◌,
          )
          (k.at (pos + length xs) rest (omega (arith, len))
            ∙ ap (λ p. ok (b, (p, rest))) (omega (arith, len)));
  }

  pub Reads-need_more :
      (m : Reader A) {bytes : List ℕ} {a : A}
      → 1 ≤ length bytes
      → Reads m bytes a
      → Reads (need_more >>= λ _. m) bytes a
  unfolding need_more
  Reads-need_more m {bytes = []} more h = absurd (omega arith)
  Reads-need_more m {bytes = b ∷ bs} more h = record { at = h.at }

pub Reads-read_varint : (v : ℕ) → IsU64 v → Reads read_varint (varint v) v
unfolding read_varint
Reads-read_varint v h = record {
  at = λ pos rest fits.
      rw (decode-encode v rest h, read_varint)
        (ap (λ t. ok (v, (pos + length (varint v), t))) (drop-append (varint v) rest));
}

pub Reads-read_byte : (b : ℕ) → Reads read_byte (b ∷ []) b
unfolding read_byte
Reads-read_byte b = record { at = λ pos rest fits. refl }

pub Reads-read_text : (text : List ℕ) → Reads (read_text (length text)) text text
unfolding read_text
Reads-read_text text = record {
  at = λ pos rest fits.
      let len = length-append text rest in
      rw (
        ltb-false (pos + length (text ++ rest)) ((pos + length text) % 2 ^ 64) (omega (arith, len)),
        ltb-false (length (text ++ rest)) (length text) (omega (arith, len)),
        take-append text rest,
        drop-append text rest,
      );
}

-- The bytes of the items, one after the other.
abbrev pub encode_all {ℓ} : {A : Type ℓ} → (A → List ℕ) → List A → List ℕ
encode_all code [] = []
encode_all code (x ∷ xs) = code x ++ encode_all code xs

module _ {ℓ} {A : Type ℓ} where
  pub Reads-repeat {κ} :
      (P : A → Type κ) (m : Reader A) (code : A → List ℕ)
      → ((x : A) → P x → Reads m (code x) x)
      → (xs : List A) → All P xs
      → Reads (repeat (length xs) m) (encode_all code xs) xs
  unfolding repeat
  Reads-repeat P m code one [] h = Reads-pure []
  Reads-repeat P m code one (x ∷ xs) h =
      Reads-bind m (λ y. repeat (length xs) m >>= λ ys. pure (y ∷ ys)) (one x h.0)
        (subst (λ t. Reads (repeat (length xs) m >>= λ ys. pure (x ∷ ys)) t (x ∷ xs)) (append-nil _)
          (Reads-bind (repeat (length xs) m) (λ ys. pure (x ∷ ys))
            (Reads-repeat P m code one xs h.1) (Reads-pure (x ∷ xs))))

  pub Reads-last :
      {B : Type ℓ} (m : Reader A) (f : A → B) {xs : List ℕ} {a : A}
      → Reads m xs a
      → Reads (m >>= λ x. pure (f x)) xs (f a)
  Reads-last m f {xs} {a} h =
      subst (λ t. Reads (m >>= λ x. pure (f x)) t (f a)) (append-nil xs)
        (Reads-bind m (λ x. pure (f x)) h (Reads-pure (f a)))

  -- A span that is read to the end.
  pub Reads-run :
      (m : Reader A) {bytes : List ℕ} {a : A}
      → Reads m bytes a
      → length bytes < 2 ^ 64
      → run m bytes ≡ ok a
  Reads-run m {bytes} {a} h fits =
      let whole : m (0, bytes) ≡ ok (a, (0 + length bytes, [])) =
        rw append-nil at (h.at 0 [] (omega arith)) in
      rw (whole, run)

  pub Reads-reserve :
      (max_size n : ℕ) (m : Reader A) {bytes : List ℕ} {a : A}
      → n ≤ max_size
      → Reads m bytes a
      → Reads (reserve max_size n >>= λ _. m) bytes a
  Reads-reserve max_size n m fits h = record {
    at = λ pos rest small. rw (ltb-false max_size n fits, ◌>>=◌, reserve) (h.at pos rest small);
  }

  -- The same reader, with its bytes or its result written otherwise.
  pub Reads-value : {m : Reader A} {xs : List ℕ} {a b : A} → a ≡ b → Reads m xs a → Reads m xs b
  Reads-value {m} {xs} e h = subst (λ t. Reads m xs t) e h

  pub Reads-bytes : {m : Reader A} {xs ys : List ℕ} {a : A} → xs ≡ ys → Reads m xs a → Reads m ys a
  Reads-bytes {m} {a} e h = subst (λ t. Reads m t a) e h

  -- A checked number, and what comes behind it.
  pub Reads-number :
      (f : ℕ → Reader A) (v : ℕ) {ys : List ℕ} {a : A}
      → IsU64 v
      → Reads (f v) ys a
      → Reads (need_more >>= λ _. read_varint >>= f) (varint v ++ ys) a
  Reads-number f v h k =
      Reads-need_more (read_varint >>= f) (omega (arith, length-append {0}, length-varint v h))
        (Reads-bind read_varint f (Reads-read_varint v h) k)

-- The items read are images of those written.
pub Reads-repeat-map {ℓ κ} :
    {A B : Type ℓ} (P : B → Type κ) (m : Reader A) (code : B → List ℕ) (image : B → A)
    → ((y : B) → P y → Reads m (code y) (image y))
    → (ys : List B) → All P ys
    → Reads (repeat (length ys) m) (encode_all code ys) (map image ys)
unfolding repeat
Reads-repeat-map P m code image one [] h = Reads-pure []
Reads-repeat-map P m code image one (y ∷ ys) h = Reads-bind m _ (one y h.0) (
    Reads-last (repeat (length ys) m) (λ rest. image y ∷ rest)
      (Reads-repeat-map P m code image one ys h.1))
