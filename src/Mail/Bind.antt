-- ===== src/Mail/Bind.antt =====
-- What binding and reading a column do to an address with one `@`.
use mailu.Prelude.{
  ◌≡◌, refl, ap, ◌∙◌, some, [], ◌∷◌, ◌++◌, arith, Bytes, rsplit, count, lower_char, lower,
  has-count, rsplit-append, count-lower,
}
use mailu.Mail.{returned, Idna, at, bind_email, read_email, convert_email}

-- the documented behaviour of the package that the maps rely on
pub record IsIdna (idna : Idna) : Type 0 where
  pub decodes : (d k : Bytes) → idna.encode d ≡ some k → (d' : Bytes) × (idna.decode k ≡ some d')
  pub plain : (d k : Bytes) → idna.encode d ≡ some k → count b'@' k ≡ 0

pub lower-append : (xs ys : Bytes) → lower (xs ++ ys) ≡ lower xs ++ lower ys
unfolding lower
lower-append [] ys = refl
lower-append (x ∷ xs) ys = ap (λ r. lower_char x ∷ r) (lower-append xs ys)

pub lower-at : (l d : Bytes) → lower (at l d) ≡ at (lower l) (lower d)
unfolding lower
lower-at l d = lower-append l (b'@' ∷ d)

pub rsplit-at : (l d : Bytes) → count b'@' d ≡ 0 → rsplit b'@' (at l d) ≡ some (l, d)
rsplit-at l d h = rsplit-append b'@' l d h

module _ (idna : Idna) where
  pub bind_email-at :
      (l d k : Bytes)
      → count b'@' l ≡ 0
      → count b'@' d ≡ 0
      → idna.encode (lower d) ≡ some k
      → bind_email idna (at l d) ≡ returned (at (lower l) k)
  unfolding bind_email convert_email
  bind_email-at l d k h g e = ground (
    arith,
    lower-at l d,
    rsplit-at (lower l) (lower d) (count-lower b'@' d (omega arith) ∙ g),
    has-count b'@' (lower l),
    count-lower b'@' l,
  )

  pub read_email-at :
      (l k d : Bytes)
      → count b'@' k ≡ 0
      → idna.decode k ≡ some d
      → read_email idna (at l k) ≡ returned (at l d)
  unfolding read_email convert_email
  read_email-at l k d h e = ground (arith, rsplit-at l k)
