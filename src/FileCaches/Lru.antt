-- ===== src/FileCaches/Lru.antt =====
-- `LRUCache::getFileCache` of ttw/file/filecache.cc gives and leaves what a use of the recent caches does.
use ttw.Prelude.{
  ℕ, suc, ◌≡◌, ◌≢◌, refl, true, false, none, some, List, [], ◌∷◌, ◌++◌, arith, ltb, has, length,
  sym, ap, ◌∙◌, Bool-cases, Option-cases, inl, inr, subst,
}
use ttw.Prelude.Text.{Bytes}
use ttw.Prelude.Dict.{find, bytes_key}
use ttw.FileCaches.{File, LruCache, file_cache}
use ttw.FileCaches.Touch.{split}
use ttw.FileCaches.Insert.{IsLru}
use ttw.FileCaches.Recent.{files}
use ttw.FileCaches.Used.{Uses, found-Uses, invalid-Uses}
use ttw.FileCaches.Renewed.{valid-path, room-Uses, full-Uses}

-- The last address of a list that is not empty.
snoc_split : (x : ℕ) (xs : List ℕ) → (q : ℕ) × (front : List ℕ) × (x ∷ xs ≡ front ++ (q ∷ []))
snoc_split x [] = (x, [], refl)
snoc_split x (y ∷ xs) = let (q, front, e) = snoc_split y xs in (q, x ∷ front, ap (λ z. x ∷ z) e)

module _ (opened : Bytes → File) (n fresh : ℕ) (path : Bytes) (s : LruCache) where
  full-split :
      (xs : List ℕ)
      → IsLru (suc n) s xs
      → (fresh ≢ 0) × (has fresh xs ≡ false)
      → find path s.cache_node ≡ none
      → (file_cache (some (opened path))).is_valid ≡ true
      → (file_cache (some (opened path))).path ≡ path
      → ltb (length (files s.file xs)) (suc n) ≡ false
      → Uses opened (suc n) fresh path s xs
  full-split [] is free none_there v e full = absurd (ground (arith, full))
  full-split (x ∷ xs) is free none_there v e full =
      let (q, front, eq) = snoc_split x xs in
      subst (Uses opened (suc n) fresh path s) (sym eq) (
        full-Uses opened (suc n) fresh path s q front (subst (IsLru (suc n) s) eq is)
          (subst (λ l. (fresh ≢ 0) × (has fresh l ≡ false)) eq free) none_there v e
          (subst (λ l. ltb (length (files s.file l)) (suc n) ≡ false) eq full))

  -- In a state whose nodes, map and count agree, with a positive `max`, a `File` that keeps its path, and an address
  -- for the new node that is neither null nor that of a live node, `getFileCache` uses no dead node, and with its
  -- result and the state that it leaves it is a use of the recent caches.
  pub get_file_cache-recent :
      (xs : List ℕ)
      → IsLru (suc n) s xs
      → (opened path).path ≡ path
      → fresh ≢ 0
      → s.alive fresh ≡ false
      → Uses opened (suc n) fresh path s xs
  get_file_cache-recent xs is e address unused = elim (Option-cases (find path s.cache_node)) [
    | inr (p, f) ↦
        let (inside, _) = is.mapped path p f in
        let (front, back, eq, out) = split p xs inside in
        subst (Uses opened (suc n) fresh path s) (sym eq) (
          found-Uses opened (suc n) fresh path s p front back (subst (IsLru (suc n) s) eq is) out f)
    | inl none_there ↦ elim (Bool-cases (file_cache (some (opened path))).is_valid) [
      | inr invalid ↦ invalid-Uses opened (suc n) fresh path s xs is none_there invalid
      | inl v ↦
          let on_path = valid-path opened (suc n) fresh path s e v in
          elim (Bool-cases (ltb (length (files s.file xs)) (suc n))) [
            | inl short ↦
                room-Uses opened (suc n) fresh path s xs is (address, outside xs is) none_there v
                  on_path short
            | inr full ↦ full-split xs is (address, outside xs is) none_there v on_path full
          ]
    ]
  ]
    where
      outside : (xs : List ℕ) → IsLru (suc n) s xs → has fresh xs ≡ false
      outside xs is = elim (Bool-cases (has fresh xs)) [
        | inl y ↦ absurd (let dead = sym (is.nodes.living fresh y) ∙ unused in cc)
        | inr out ↦ out
      ]
