-- ===== src/DnsAdapter/Resolution.antt =====
-- The addresses that the adapter answers with (service_discovery_client.go, main.go).
use cf_networking_release.Prelude.{
  ℕ, zero, suc, ◌+◌, ◌≤◌, ◌<◌, String, ◌≡◌, refl, ap, ◌∙◌, Bool, true, false, some, List, [], ◌∷◌,
  length, ◌==◌, arith, str_eq, Result, ok, Option, Error, wrap, message, All, map,
}
use cf_networking_release.DnsAdapter.{
  element, set_element, swap, shuffle_first, shuffle, Reply, replied, try_get, ips, serve, response,
  error_response, success, answers_of, Answer,
}

abbrev pub one_if : Bool → ℕ
one_if true = 1
one_if false = 0

-- How many times the text stands in the list.
abbrev pub count : String → List String → ℕ
count s [] = 0
count s (x ∷ xs) = one_if (str_eq x s) + count s xs

count-set_element :
    (s v : String) (xs : List String) (i : ℕ)
    → i < length xs
    → count s (set_element v xs i) + one_if (str_eq (element "" xs i) s)
      ≡ count s xs + one_if (str_eq v s)
unfolding element set_element
count-set_element s v [] i h = absurd (omega (arith, h))
count-set_element s v (x ∷ xs) zero h = omega arith
count-set_element s v (x ∷ xs) (suc i) h =
    omega (arith, count-set_element s v xs i (omega (arith, h)))

length-set_element :
    (v : String) (xs : List String) (i : ℕ) → length (set_element v xs i) ≡ length xs
unfolding set_element
length-set_element v [] i = refl
length-set_element v (x ∷ xs) zero = refl
length-set_element v (x ∷ xs) (suc i) = ap suc (length-set_element v xs i)

element-set_element :
    (xs : List String) (i j : ℕ)
    → i < length xs
    → element "" (set_element (element "" xs i) xs j) i ≡ element "" xs i
unfolding element set_element
element-set_element [] i j h = refl
element-set_element (x ∷ xs) zero zero h = refl
element-set_element (x ∷ xs) zero (suc j) h = refl
element-set_element (x ∷ xs) (suc i) zero h = refl
element-set_element (x ∷ xs) (suc i) (suc j) h = element-set_element xs i j (omega (arith, h))

count-swap :
    (s : String) (vals : List String) (i j : ℕ)
    → i < length vals
    → j < length vals
    → count s (swap i j vals) ≡ count s vals
unfolding swap
count-swap s vals i j hi hj =
    let a = element "" vals i in
    let b = element "" vals j in
    let once = count-set_element s a vals j hj in
    let between = set_element a vals j in
    let twice = count-set_element s b between i (omega (arith, hi, length-set_element a vals j)) in
    let same : one_if (str_eq (element "" between i) s) ≡ one_if (str_eq a s) =
      ap (λ t. one_if (str_eq t s)) (element-set_element vals i j hi) in
    omega (arith, once, twice, same)

length-swap : (vals : List String) (i j : ℕ) → length (swap i j vals) ≡ length vals
unfolding swap
length-swap vals i j = length-set_element _ _ i ∙ length-set_element _ vals j

count-shuffle_first :
    (s : String) (rand : ℕ → ℕ) (n : ℕ) (vals : List String)
    → ((k : ℕ) → rand (suc k) < suc k)
    → n ≤ length vals
    → count s (shuffle_first rand n vals) ≡ count s vals
unfolding shuffle_first
count-shuffle_first s rand zero vals below h = refl
count-shuffle_first s rand (suc n) vals below h =
    let j = rand (suc n) in
    count-shuffle_first s rand n (swap n j vals) below (omega (arith, h, length-swap vals n j))
    ∙ count-swap s vals n j (omega (arith, h)) (omega (arith, h, below n))

-- The numbers of math/rand: Intn(n) is below n.
abbrev pub IsIntn : (ℕ → ℕ) → Type 0
IsIntn rand = (k : ℕ) → rand (suc k) < suc k

count-shuffle :
    (s : String) (rand : ℕ → ℕ) (vals : List String)
    → IsIntn rand
    → count s (shuffle rand vals) ≡ count s vals
unfolding shuffle
count-shuffle s rand vals below = count-shuffle_first s rand (length vals) vals below (omega arith)

answers_of-named :
    (name : String) (ips : List String)
    → All (λ a. (a.name ≡ name) × (a.rr_type ≡ 1) × (a.ttl ≡ 0)) (answers_of name ips)
unfolding answers_of
answers_of-named name [] = tt
answers_of-named name (ip ∷ ips) = ((refl, refl, refl), answers_of-named name ips)

count-answers_of :
    (ip name : String) (ips : List String)
    → count ip (map (λ a. a.data_text) (answers_of name ips)) ≡ count ip ips
unfolding answers_of
count-answers_of ip name [] = refl
count-answers_of ip name (x ∷ ips) =
    ap (λ n. one_if (str_eq x ip) + n) (count-answers_of ip name ips)

module _ {Body World : Type 0} (get : String → World → Reply Body × World)
    (decode : Body → Result (Option (List String))) (name : String) where
  -- So many replies in a row with a status that is not 200.
  pub data Unavailable : ℕ → World → World → Type 0 where
    no_try : (w : World) → Unavailable 0 w w
    failed_try :
        {k status : ℕ} {body : Body} {w between last : World}
        → get name w ≡ (replied status body, between)
        → (status == 200) ≡ false
        → Unavailable k between last
        → Unavailable (suc k) w last

  try_get-available :
      (tries : ℕ) {k : ℕ} {w between last : World} {body : Body}
      → Unavailable k w between
      → k ≤ tries
      → get name between ≡ (replied 200 body, last)
      → try_get get decode tries name w ≡ (replied 200 body, last)
  unfolding try_get
  try_get-available zero (no_try w) enough reply = reply
  try_get-available (suc tries) (no_try w) enough reply = rw reply refl
  try_get-available zero (failed_try reply0 other rest) enough reply =
      absurd (omega (arith, enough))
  try_get-available (suc tries) (failed_try reply0 other rest) enough reply =
      rw (reply0, other) (try_get-available tries rest (omega (arith, enough)) reply)

  try_get-Unavailable :
      (tries : ℕ) {w last : World}
      → Unavailable (suc tries) w last
      → (status : ℕ) × (body : Body) × ((status == 200) ≡ false)
        × (try_get get decode tries name w ≡ (replied status body, last))
  unfolding try_get
  try_get-Unavailable zero (failed_try {status = status} {body = body} reply other (no_try w)) =
      (status, body, other, reply)
  try_get-Unavailable (suc tries) (failed_try reply other rest) =
      let (status, body, bad, e) = try_get-Unavailable tries rest in
      (status, body, bad, rw (reply, other) e)

  -- A request for the addresses of a name, with random numbers below the bounds that are asked for,
  -- to a controller that replies three times or less with another status than 200 and then with 200:
  -- it is answered with 200, the question, and answers of type 1 for that name, whose texts are the
  -- addresses of that reply's body, each as often as there.
  pub serve-available :
      (rand : ℕ → ℕ) {k : ℕ} {w between last : World} (body : Body) (hosts : List String)
      → IsIntn rand
      → str_eq name "" ≡ false
      → Unavailable k w between
      → k ≤ 3
      → get name between ≡ (replied 200 body, last)
      → decode body ≡ ok (some hosts)
      → (answers : List Answer) × (serve get decode rand "1" name w
          ≡ (response 200 success name "1" answers, last))
        × All (λ a. (a.name ≡ name) × (a.rr_type ≡ 1) × (a.ttl ≡ 0)) answers
        × ((ip : String) → count ip (map (λ a. a.data_text) answers) ≡ count ip hosts)
  unfolding serve ips
  serve-available rand body hosts below named down few reply decoded = (
    answers_of name (shuffle rand hosts),
    rw (named, named, try_get-available 3 down few reply, decoded) refl,
    answers_of-named name (shuffle rand hosts),
    λ ip. count-answers_of ip name (shuffle rand hosts) ∙ count-shuffle ip rand hosts below,
  )

  -- A request for the addresses of a name, to a controller that replies four times with another
  -- status than 200: it is answered with an error, after those four tries.
  pub serve-Unavailable :
      (rand : ℕ → ℕ) {w last : World}
      → str_eq name "" ≡ false
      → Unavailable 4 w last
      → (e : Error) × (serve get decode rand "1" name w ≡ (error_response e, last))
  unfolding serve ips
  serve-Unavailable rand named down =
      let (status, body, bad, e) = try_get-Unavailable 3 down in
      (
        wrap "Error querying Service Discover Controller"
            (message "Received non successful response from server: %+v"),
        rw (named, named, e, bad) refl,
      )
