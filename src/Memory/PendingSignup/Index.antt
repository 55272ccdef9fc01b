-- ===== src/Memory/PendingSignup/Index.antt =====
-- One index over one field of the stored signups, under the writes that the store makes.
use wesko_go_backend.Common.{◌≡◌, ◌≢◌, ap, inl, inr, some, none, arith, Bool-cases}
use wesko_go_backend.Common.Text.{Text, eq, eq_iff}
use wesko_go_backend.Common.Map.{Map, insert, delete}
use wesko_go_backend.Auth.Models.{PendingSignup}

-- Every entry of the index names a stored signup that has the entry's key in the field.
abbrev pub Sound : (PendingSignup → Text) → Map PendingSignup → Map Text → Type 0
Sound field signups index =
    (u m : Text) → index u ≡ some m → (p : PendingSignup) × (signups m ≡ some p) × (field p ≡ u)

-- Every stored signup is found in the index under its field.
abbrev pub Indexed : (PendingSignup → Text) → Map PendingSignup → Map Text → Type 0
Indexed field signups index =
    (m : Text) (p : PendingSignup) → signups m ≡ some p → index (field p) ≡ some m

module _ (field : PendingSignup → Text) (signups : Map PendingSignup) (index : Map Text) (m : Text)
    (p : PendingSignup) where
  pub Sound-delete :
      signups m ≡ some p
      → Sound field signups index
      → Sound field (delete m signups) (delete (field p) index)
  Sound-delete found sound u k h = elim (Bool-cases (eq (field p) u)) [
    | inl same ↦ cc (rw same at h)
    | inr other ↦
        let (q, at_k, has) = sound u k (rw other at h) in
        (
          q,
          elim (Bool-cases (eq m k)) [
            | inl same ↦
                ground (arith, eq_iff m k, eq_iff (field p) u, ap signups ((eq_iff m k).0 same))
            | inr apart ↦ rw apart at_k
          ],
          has,
        )
  ]

  pub Sound-insert :
      signups m ≡ none
      → Sound field signups index
      → Sound field (insert m p signups) (insert (field p) m index)
  Sound-insert free sound u k h = elim (Bool-cases (eq (field p) u)) [
    | inl same ↦
        let e : m ≡ k = ground arith in (p, ground (arith, eq_iff m k), (eq_iff (field p) u).0 same)
    | inr other ↦
        let (q, at_k, has) = sound u k (rw other at h) in
        (
          q,
          elim (Bool-cases (eq m k)) [
            | inl same ↦ cc (ap signups ((eq_iff m k).0 same))
            | inr apart ↦ rw apart at_k
          ],
          has,
        )
  ]

  pub Indexed-delete :
      signups m ≡ some p
      → Indexed field signups index
      → Indexed field (delete m signups) (delete (field p) index)
  Indexed-delete found indexed k q h = elim (Bool-cases (eq m k)) [
    | inl same ↦ cc (rw same at h)
    | inr other ↦
        let at_k : signups k ≡ some q = rw other at h in
        ground (
          arith,
          eq_iff m k,
          eq_iff (field p) (field q),
          indexed m p found,
          indexed k q at_k,
          λ (e : field p ≡ field q). ap index e,
        )
  ]

  -- The field of the new signup is that of no other.
  pub Indexed-insert :
      ((k : Text) (q : PendingSignup) → signups k ≡ some q → field q ≢ field p)
      → Indexed field signups index
      → Indexed field (insert m p signups) (insert (field p) m index)
  Indexed-insert free indexed k q h = elim (Bool-cases (eq m k)) [
    | inl same ↦
        let e : p ≡ q = ground arith in
        ground (arith, eq_iff m k, eq_iff (field p) (field q), ap field e)
    | inr other ↦
        let at_k : signups k ≡ some q = rw other at h in
        ground (arith, eq_iff (field p) (field q), free k q at_k, indexed k q at_k)
  ]
