-- ===== src/Service/Http/Address/Hops.antt =====
-- What the rate limits of apps/service/src/http.ts key on.
use crosscode.Prelude.{◌≡◌, refl, ap, true, false, List, [], ◌∷◌, ◌++◌, some, map, arith, any}
use crosscode.Prelude.Text.{Text, truthy, trim}
use crosscode.Paths.{split}
use crosscode.Paths.Split.{split-append}
use crosscode.Git.{filter_truthy}
use crosscode.Service.Http.{Request}
use crosscode.Service.Http.Address.{last, is_comma, chain, client_address}

last-append_one : (l : List Text) (s : Text) → last (l ++ s ∷ []) ≡ some s
last-append_one [] s = refl
last-append_one (t ∷ []) s = refl
last-append_one (t ∷ u ∷ l) s = last-append_one (u ∷ l) s

map-append : (f : Text → Text) (l m : List Text) → map f (l ++ m) ≡ map f l ++ map f m
map-append f [] m = refl
map-append f (s ∷ l) m = ap (λ r. f s ∷ r) (map-append f l m)

filter_truthy-append :
    (l m : List Text) → filter_truthy (l ++ m) ≡ filter_truthy l ++ filter_truthy m
unfolding filter_truthy
filter_truthy-append [] m = refl
filter_truthy-append (s ∷ l) m = ground (arith, filter_truthy-append l m)

one_entry : (s : Text) → truthy (some s) ≡ true → filter_truthy (s ∷ []) ≡ s ∷ []
unfolding filter_truthy
one_entry s h = rw h

last-chain :
    (sent hop : Text)
    → any is_comma hop ≡ false
    → truthy (some (trim hop)) ≡ true
    → last (chain (sent ++ b',' ∷ hop)) ≡ some (trim hop)
last-chain sent hop one there =
    rw
      (
        split-append is_comma sent hop b',' refl one,
        map-append trim (split is_comma sent) (hop ∷ []),
        filter_truthy-append (map trim (split is_comma sent)) (trim hop ∷ []),
        one_entry (trim hop) there,
      )
      (last-append_one (filter_truthy (map trim (split is_comma sent))) (trim hop))

-- Behind a trusted proxy that appends a hop to the header that it was sent, the address is that hop,
-- whatever the client has sent in the header, and whatever the address of the socket is. This is for
-- a hop without a comma that is not only white space.
pub client_address_unforgeable :
    (request : Request) (sent hop : Text)
    → request.forwarded_for ≡ some (sent ++ b',' ∷ hop)
    → any is_comma hop ≡ false
    → truthy (some (trim hop)) ≡ true
    → client_address request true ≡ trim hop
unfolding client_address
client_address_unforgeable request sent hop h one there = rw (h, last-chain sent hop one there)
