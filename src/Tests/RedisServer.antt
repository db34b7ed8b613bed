-- ===== src/Tests/RedisServer.antt =====
-- A server of Redis in memory, which does what internal/usercache/redis.go relies on.
use Prim.Native.Char.{code}
use Prim.Native.String.{◌++◌}
use package.text.Mathlib.TextLemmas.{nil-append, cons-append}
use native.Mathlib.Decide.{ℕ_discrete}
use rtk_account_manager.Common.{
  ℤ, Time, String, str_eq, eq_iff, ◌≡◌, refl, sym, subst, ap, ◌∙◌, Bool, true, false, ◌&&◌, ◌||◌,
  Bool-cases, inl, inr, Option, none, some, List, [], ◌∷◌, ◌==◌, if◌then◌else◌, Result, ok, err,
  plain, GoError, is_not_found, arith,
}
use rtk_account_manager.Model.User.{User}
use rtk_account_manager.Channel.Fields.{contains}
use rtk_account_manager.UserCache.Cache.{IsCache}
use rtk_account_manager.UserCache.Redis.{RedisCache, Reply, text, scan_result, nil, other, redis}
use rtk_account_manager.UserCache.Redis.Server.{IsServer, IsJson, is_literal, In, here, there}
use rtk_account_manager.UserCache.Redis.Entries.{layout}
use rtk_account_manager.UserCache.Redis.Laws.{redis-IsCache}
use rtk_account_manager.Tests.Accounts.{ann}

string_discrete : Discrete String
string_discrete s t = elim (Bool-cases (str_eq s t)) [
  | inl same ↦ yes ((eq_iff s t).0 same)
  | inr apart ↦ no (λ e. cc (apart, (eq_iff s t).1 e))
]

int_discrete : Discrete ℤ
int_discrete = hlevel (ℕ_discrete)

time_discrete : Discrete Time
time_discrete = hlevel (ℕ_discrete, int_discrete)

user_discrete : Discrete User
user_discrete = hlevel (string_discrete, int_discrete, time_discrete)

-- The keys with their values, the last one written first.
abbrev Held : Type 0
Held = List (String × String)

held : Held → String → Option String
held [] k = none
held ((j, v) ∷ s) k = if str_eq j k then some v else held s k

removed : List String → Held → Held
removed ks [] = []
removed ks ((j, v) ∷ s) = let rest = removed ks s in if contains ks j then rest else (j, v) ∷ rest

-- A pattern with at most one star, at its end.
matches : String → String → Bool
matches String.[] String.[] = true
matches String.[] (String.◌∷◌ d k) = false
matches (String.◌∷◌ c p) String.[] = code c == 42
matches (String.◌∷◌ c p) (String.◌∷◌ d k) =
    let rest = matches p k in (code c == 42) || (code c == code d && rest)

matching : String → Held → List String
unfolding matches
matching p [] = []
matching p ((j, v) ∷ s) = let rest = matching p s in if matches p j then j ∷ rest else rest

abbrev text_or_nil : Option String → Reply
text_or_nil none = nil
text_or_nil (some v) = text v

abbrev first_of : List String → String
first_of [] = ""
first_of (k ∷ args) = k

abbrev third_of : List String → String
third_of (cursor ∷ name ∷ pattern ∷ args) = pattern
third_of _ = ""

reply : List String → Held → Reply
unfolding held matching
reply [] s = other
reply (name ∷ args) s =
    if str_eq name "GET"
    then text_or_nil (held s (first_of args))
    else if str_eq name "SCAN"
    then scan_result "0" (matching (third_of args) s)
    else other

abbrev written : List String → Held → Held
written (k ∷ v ∷ args) s = (k, v) ∷ s
written _ s = s

after_command : List String → Held → Held
unfolding removed
after_command [] s = s
after_command (name ∷ args) s =
    if str_eq name "SET" then written args s else if str_eq name "DEL" then removed args s else s

-- Of users, the codec writes Ann alone.
abbrev written_if : {A : Type 0} → Dec A → String → Result String
written_if (yes p) t = ok t
written_if (no p) t = err (plain "unsupported value")

abbrev marshal_auth_of : User × String → Result String
marshal_auth_of (u, hash) = written_if (user_discrete u ann.user) (String.◌∷◌ "+" hash)

abbrev unmarshal_auth_of : String → Result (User × String)
unmarshal_auth_of String.[] = err (plain "unexpected end of JSON input")
unmarshal_auth_of (String.◌∷◌ c hash) = ok (ann.user, hash)

abbrev sample : RedisCache Held
sample = record {
  prefix = "account_manager:user";
  lower = λ ch. ch;
  command = λ args s. (ok (reply args s), after_command args s);
  marshal_user = λ u. written_if (user_discrete u ann.user) "ann";
  unmarshal_user = λ t. ok ann.user;
  marshal_auth = marshal_auth_of;
  unmarshal_auth = unmarshal_auth_of;
  turns = λ s. 5;
}

held-removed :
    (ks : List String) (s : Held) (k : String)
    → held (removed ks s) k ≡ (if contains ks k then none else held s k)
unfolding held removed
held-removed ks [] k = ground arith
held-removed ks ((j, v) ∷ s) k = elim (Bool-cases (str_eq j k)) [
  | inl own ↦
      let same : j ≡ k = (eq_iff j k).0 own in
      elim (Bool-cases (contains ks k)) [
        | inl gone ↦
            let gone' : contains ks j ≡ true = ap (contains ks) same ∙ gone in
            rw gone' (
              held-removed ks s k
              ∙ ap (λ b. if b then none else held s k) gone
              ∙ sym (ap (λ b. if b then none else held ((j, v) ∷ s) k) gone))
        | inr kept ↦
            let kept' : contains ks j ≡ false = ap (contains ks) same ∙ kept in
            rw (kept', kept, own)
      ]
  | inr apart ↦ elim (Bool-cases (contains ks j)) [
    | inl gone ↦ rw (gone, apart) (held-removed ks s k)
    | inr kept ↦ rw (kept, apart) (held-removed ks s k)
  ]
]

held_before :
    (ks : List String) (s : Held) (k v : String)
    → held (removed ks s) k ≡ some v
    → held s k ≡ some v
held_before ks s k v h = elim (Bool-cases (contains ks k)) [
  | inl gone ↦ absurd (cc (held-removed ks s k, h, gone))
  | inr kept ↦ cc (held-removed ks s k, h, kept)
]

contains-In : {k : String} {ks : List String} → In k ks → contains ks k ≡ true
contains-In {k = k} here = rw ((eq_iff k k).1 refl)
contains-In (there {j = j} {k = k} member) = ground (arith, contains-In member)

In-matching :
    (p k v : String) (s : Held) → matches p k ≡ true → held s k ≡ some v → In k (matching p s)
unfolding held matching
In-matching p k v [] fits h = absurd (cc (h))
In-matching p k v ((j, w) ∷ s) fits h = elim (Bool-cases (str_eq j k)) [
  | inl own ↦
      let same : j ≡ k = (eq_iff j k).0 own in
      let fits' : matches p j ≡ true = ap (matches p) same ∙ fits in
      rw fits' (subst (λ i. In k (i ∷ matching p s)) (sym same) here)
  | inr apart ↦ elim (Bool-cases (matches p j)) [
    | inl more ↦ rw more (there (In-matching p k v s fits (cc (h, apart))))
    | inr less ↦ rw less (In-matching p k v s fits (cc (h, apart)))
  ]
]

matches-star : (p t : String) → matches (p ++ "*") (p ++ t) ≡ true
unfolding matches
matches-star String.[] t =
    ap (λ a. matches a (String.[] ++ t)) (nil-append "*")
    ∙ ap (matches "*") (nil-append t)
    ∙ by_text t
  where
    by_text : (t : String) → matches "*" t ≡ true
    by_text String.[] = refl
    by_text (String.◌∷◌ d k) = refl
matches-star (String.◌∷◌ c p) t =
    ap (λ a. matches a (String.◌∷◌ c p ++ t)) (cons-append c p "*")
    ∙ ap (matches (String.◌∷◌ c (p ++ "*"))) (cons-append c p t)
    ∙ ground (arith, matches-star p t)

sample-IsServer : IsServer sample held (λ p cursor s k. matches p k ≡ true)
unfolding reply after_command held
sample-IsServer = record {
  get_text = λ k v s is. by_value (held s k) v is;
  get_shrinks = λ k s j v h. h;
  set_writes = λ k v j w s h. elim (Bool-cases (str_eq k j)) [
    | inl own ↦ inr (sym ((eq_iff k j).0 own), cc (h, own))
    | inr apart ↦ inl (cc (h, apart))
  ];
  set_replaces = λ k v w s r is h. cc (h, (eq_iff k k).1 refl);
  del_shrinks = λ ks s k v h. held_before ks s k v h;
  del_removes = λ ks k v s r is member h. cc (held-removed ks s k, h, contains-In member);
  scan_shrinks = λ p cursor s k v h. h;
  scan_starts = λ p t v s literal h. matches-star p t;
  scan_returns = λ p cursor next ks k v s is fits h.
      let same : matching p s ≡ ks = cc (is) in
      inl (subst (In k) same (In-matching p k v s fits h));
  del_keeps_left = λ ks p cursor k s fits. fits;
  command_logged = λ args s e is. absurd (cc (is));
}
  where
    by_value :
        (o : Option String) (v : String)
        → Path (Result Reply) (ok (text_or_nil o)) (ok (text v))
        → o ≡ some v
    by_value none v is = absurd (cc (is))
    by_value (some w) v is = let same : w ≡ v = cc (is) in ap some same

sample-IsJson : IsJson sample
sample-IsJson = record {
  user_read = λ u t is. user_of u (user_discrete u ann.user) t is;
  auth_read = λ (u, hash) t is. auth_of u hash (user_discrete u ann.user) t is;
  marshal_user_logged = λ u e is. logged (user_discrete u ann.user) "ann" e is;
  unmarshal_user_logged = λ t e is. absurd (cc (is));
  marshal_auth_logged =
      λ (u, hash) e is. logged (user_discrete u ann.user) (String.◌∷◌ "+" hash) e is;
}
  where
    user_of :
        (u : User) (d : Dec (u ≡ ann.user)) (t : String)
        → written_if d "ann" ≡ ok t
        → Path (Result User) (ok ann.user) (ok u)
    user_of u (yes same) t is = ap ok (sym same)
    user_of u (no apart) t is = absurd (cc (is))

    auth_of :
        (u : User) (hash : String) (d : Dec (u ≡ ann.user)) (t : String)
        → written_if d (String.◌∷◌ "+" hash) ≡ ok t
        → unmarshal_auth_of t ≡ ok (u, hash)
    auth_of u hash (yes same) t is =
        let same_text : String.◌∷◌ "+" hash ≡ t = cc (is) in
        ap unmarshal_auth_of (sym same_text) ∙ ap (λ v. ok (v, hash)) (sym same)
    auth_of u hash (no apart) t is = absurd (cc (is))

    logged :
        {A : Type 0} (d : Dec A) (t : String) (e : GoError)
        → written_if d t ≡ err e
        → is_not_found e ≡ false
    logged (yes p) t e is = absurd (cc (is))
    logged (no p) t e is =
        let same : plain "unsupported value" ≡ e = cc (is) in
        subst (λ y. is_not_found y ≡ false) same refl

redis-IsCache_example : IsCache (layout sample held) (redis sample)
unfolding is_literal
redis-IsCache_example = redis-IsCache sample held sample-IsServer sample-IsJson refl
