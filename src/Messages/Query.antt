-- ===== src/Messages/Query.antt =====
-- `setQuery` of ttw/http/http.cc on the query that `toString` prints.
use ttw.Prelude.{
  append_nil, ℕ, ◌≡◌, refl, Bool, true, false, ◌&&◌, not, some, List, [], ◌∷◌, ◌++◌, arith, ◌==◌,
  ap, ◌∙◌,
}
use ttw.Prelude.Text.{Bytes}
use ttw.Messages.{MapType, put, pieces, split_pair, put_pieces, query_text, HttpRequest, set_query}

-- The byte is not in the text.
abbrev pub free : ℕ → Bytes → Bool
free x [] = true
free x (c ∷ cs) = not (c == x) && free x cs

-- Keys without `=` and `&`, and values without `&`.
abbrev pub Printable : MapType → Type 0
Printable [] = Unit {0}
Printable ((k, v) ∷ m) =
    (free b'=' k ≡ true) × (free b'&' k ≡ true) × (free b'&' v ≡ true) × Printable m

abbrev pub put_all : MapType → MapType → MapType
put_all [] m = m
put_all ((k, v) ∷ q) m = put_all q (put k v m)

pieces-append :
    (p rest : Bytes) → free b'&' p ≡ true → pieces (p ++ (b'&' ∷ rest)) ≡ p ∷ pieces rest
unfolding pieces
pieces-append [] rest h = ground arith
pieces-append (c ∷ p) rest h = ground (arith, h, pieces-append p rest)

pieces-last : (c : ℕ) (p : Bytes) → free b'&' (c ∷ p) ≡ true → pieces (c ∷ p) ≡ (c ∷ p) ∷ []
unfolding pieces
pieces-last c [] h = ground (arith, h)
pieces-last c (d ∷ p) h = ground (arith, h, pieces-last d p)

split_pair-pair : (k v : Bytes) → free b'=' k ≡ true → split_pair (k ++ (b'=' ∷ v)) ≡ some (k, v)
unfolding split_pair
split_pair-pair [] v h = ground arith
split_pair-pair (c ∷ k) v h = ground (arith, h, split_pair-pair k v)

free-append : (x : ℕ) (a b : Bytes) → free x a ≡ true → free x b ≡ true → free x (a ++ b) ≡ true
free-append x [] b h g = g
free-append x (c ∷ a) b h g = ground (arith, h, g, free-append x a b)

pieces-pair :
    (k v : Bytes)
    → free b'&' (k ++ (b'=' ∷ v)) ≡ true
    → pieces (k ++ (b'=' ∷ v)) ≡ (k ++ (b'=' ∷ v)) ∷ []
pieces-pair [] v h = pieces-last b'=' v h
pieces-pair (c ∷ k) v h = pieces-last c (k ++ (b'=' ∷ v)) h

pair-free :
    (k v : Bytes) → free b'&' k ≡ true → free b'&' v ≡ true → free b'&' (k ++ (b'=' ∷ v)) ≡ true
pair-free k v h g = free-append b'&' k (b'=' ∷ v) h g

regroup : (k v rest : Bytes) → k ++ (b'=' ∷ (v ++ rest)) ≡ (k ++ (b'=' ∷ v)) ++ rest
regroup [] v rest = refl
regroup (c ∷ k) v rest = ap (λ z. c ∷ z) (regroup k v rest)

put_pieces-step :
    (p k v : Bytes) (ps : List Bytes) (m : MapType)
    → split_pair p ≡ some (k, v)
    → put_pieces (p ∷ ps) m ≡ put_pieces ps (put k v m)
unfolding put_pieces
put_pieces-step p k v ps m e = rw (e, put_pieces) refl

pieces-query_text :
    (q m : MapType) → Printable q → put_pieces (pieces (query_text false q)) m ≡ put_all q m
unfolding query_text
pieces-query_text [] m h = unfold pieces in unfold put_pieces in refl
pieces-query_text ((k, v) ∷ []) m (ke, ka, va, h) =
    ap (λ z. put_pieces (pieces (k ++ (b'=' ∷ z))) m) (append_nil v)
    ∙ ap (λ z. put_pieces z m) (pieces-pair k v (pair-free k v ka va))
    ∙ put_pieces-step (k ++ (b'=' ∷ v)) k v [] m (split_pair-pair k v ke)
    ∙ (unfold put_pieces in refl)
pieces-query_text ((k, v) ∷ x ∷ q) m (ke, ka, va, h) =
    ap (λ z. put_pieces (pieces z) m) (regroup k v (b'&' ∷ query_text false (x ∷ q)))
    ∙ ap (λ z. put_pieces z m)
        (pieces-append (k ++ (b'=' ∷ v)) (query_text false (x ∷ q)) (pair-free k v ka va))
    ∙ put_pieces-step (k ++ (b'=' ∷ v)) k v (pieces (query_text false (x ∷ q))) m
        (split_pair-pair k v ke)
    ∙ pieces-query_text (x ∷ q) (put k v m) h

-- `setQuery` on the text that `toString` prints for a query, whose keys hold no `=` and no `&` and whose values no
-- `&`, puts just the pairs of this query, in their order.
pub set_query-query_text :
    (q : MapType) (r : HttpRequest)
    → Printable q
    → (set_query (query_text false q) r).query ≡ put_all q r.query
unfolding set_query
set_query-query_text q r h = pieces-query_text q r.query h

pub set_query-msg : (text : Bytes) (r : HttpRequest) → (set_query text r).msg ≡ r.msg
unfolding set_query
set_query-msg text r = refl
