-- ===== src/Packed/Tests.antt =====
-- The bytes of a small struct.
use nebula_fs.Common.{◌≡◌, refl, [], ◌∷◌}
use nebula_fs.Packed.{pack, unpack}

packed : pack (2 ∷ 4 ∷ []) (258 ∷ 1 ∷ []) ≡ 2 ∷ 1 ∷ 1 ∷ 0 ∷ 0 ∷ 0 ∷ []
unfolding pack
packed = refl

unpacked : unpack (2 ∷ 4 ∷ []) (2 ∷ 1 ∷ 1 ∷ 0 ∷ 0 ∷ 0 ∷ []) ≡ 258 ∷ 1 ∷ []
unfolding unpack
unpacked = refl
