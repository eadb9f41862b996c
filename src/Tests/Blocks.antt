-- ===== src/Tests/Blocks.antt =====
-- Examples on memory blocks (Engine/Memory).
use luna_openssl_provider.Prelude.{
  ℕ, ◌+◌, ◌≡◌, refl, Bool, true, some, [], ◌∷◌, ◌++◌, Bytes, codes, length, drop, set, replicate,
  pos, arith,
}
use luna_openssl_provider.Engine.Memory.{luna_redzone_fill, fill_from, luna_malloc, luna_cleanse}
use luna_openssl_provider.Engine.Memory.Redzone.{luna_cleanse-overrun}

abbrev enough : ℕ → Bool
enough _ = true

abbrev wipe : Bytes → Bytes
wipe b = replicate (length b) 0

abbrev block : Bytes
block =
    0 ∷ 0 ∷ 0 ∷ 187 ∷ 188 ∷ 189 ∷ 190 ∷ 191 ∷ 192 ∷ 193 ∷ 194 ∷ 195 ∷ 196 ∷ 197 ∷ 198 ∷ 199 ∷ 200
    ∷ 201 ∷ 202 ∷ []

allocated : luna_malloc enough (pos 3) ≡ some block
unfolding luna_malloc luna_redzone_fill fill_from
allocated = refl

-- The 0 behind "PIN" is one byte too far.
luna_cleanse-overrun_example :
    (luna_cleanse wipe (some (set (codes "PIN" ++ drop 3 block) (3 + 0) 0)) 3).0 ≡ 1
luna_cleanse-overrun_example =
    luna_cleanse-overrun enough wipe 3 (codes "PIN") 0 0 allocated refl (omega arith) (omega arith)
