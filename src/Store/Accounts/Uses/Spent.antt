-- ===== src/Store/Accounts/Uses/Spent.antt =====
-- internal/store/store.go: tokens that have been consumed or withdrawn.
use rtk_account_manager.Common.{
  String, str_eq, eq_iff, ◌≡◌, refl, sym, ap, ◌∙◌, subst, Bool, true, false, none, some, is_some,
  List, [], ◌∷◌, map, Time, ok, err, not, ◌&&◌, >>-eq-ok, not_found, arith, if◌then◌else◌,
}
use mathlib.Core.Option
use rtk_account_manager.Store.Accounts.{UserRow, AuthToken, Accounts}
use rtk_account_manager.Store.Accounts.Tokens.{
  token_key, consumer_of, mark_consumed, consume_auth_token, withdraw, insert_token,
}
use rtk_account_manager.Store.Accounts.Passwords.Laws.{consume_auth_token-eq-ok, ok-eq-ok}
use rtk_account_manager.Store.Rows.{find_row, find_row-key}
use rtk_account_manager.Store.Rows.Distinct.{find_row-append, find_row-map}

-- The token is in the table, and it has been consumed or withdrawn.
abbrev pub IsSpent : String → List AuthToken → Type 0
IsSpent hash tokens =
    (t : AuthToken) × (find_row token_key hash tokens ≡ some t) × (is_some t.consumed_at ≡ true)

map-IsSpent :
    (f : AuthToken → AuthToken) (hash : String) (tokens : List AuthToken)
    → ((t : AuthToken) → token_key (f t) ≡ token_key t)
    → ((t : AuthToken) → is_some t.consumed_at ≡ true → is_some (f t).consumed_at ≡ true)
    → IsSpent hash tokens
    → IsSpent hash (map f tokens)
map-IsSpent f hash tokens keeps_key keeps_spent (t, there, spent) = (
  f t,
  find_row-map token_key f hash tokens keeps_key ∙ ap (Option.map f) there,
  keeps_spent t spent,
)

-- The token if the test fails, else consumed.
abbrev consumed_if : Time → Bool → AuthToken → AuthToken
consumed_if now b t = if b then record t { consumed_at = some now } else t

by_key : (now : Time) (b : Bool) (t : AuthToken) → token_key (consumed_if now b t) ≡ token_key t
by_key now true t = refl
by_key now false t = refl

consumed_if-IsSpent :
    (now : Time) (test : AuthToken → Bool) (hash : String) (tokens : List AuthToken)
    → IsSpent hash tokens
    → IsSpent hash (map (λ t. consumed_if now (test t) t) tokens)
consumed_if-IsSpent now test hash tokens =
    map-IsSpent (λ t. consumed_if now (test t) t) hash tokens (λ t. by_key now (test t) t)
      (λ t. by_test (test t) t)
  where
    by_test :
        (b : Bool) (t : AuthToken)
        → is_some t.consumed_at ≡ true
        → is_some (consumed_if now b t).consumed_at ≡ true
    by_test true t h = refl
    by_test false t h = h

mark_consumed-eq-map :
    (now : Time) (used : String) (tokens : List AuthToken)
    → mark_consumed now used tokens ≡ map (λ t. consumed_if now (str_eq t.token_hash used) t) tokens
unfolding mark_consumed
mark_consumed-eq-map now used [] = refl
mark_consumed-eq-map now used (t ∷ tokens) =
    ap (λ rest. consumed_if now (str_eq t.token_hash used) t ∷ rest)
      (mark_consumed-eq-map now used tokens)

withdraw-eq-map :
    (now : Time) (test : AuthToken → Bool) (tokens : List AuthToken)
    → withdraw now test tokens
      ≡ map (λ t. consumed_if now (test t && not (is_some t.consumed_at)) t) tokens
unfolding withdraw
withdraw-eq-map now test [] = refl
withdraw-eq-map now test (t ∷ tokens) =
    ap (λ rest. consumed_if now (test t && not (is_some t.consumed_at)) t ∷ rest)
      (withdraw-eq-map now test tokens)

mark_consumed-IsSpent :
    (now : Time) (used hash : String) (tokens : List AuthToken)
    → IsSpent hash tokens
    → IsSpent hash (mark_consumed now used tokens)
mark_consumed-IsSpent now used hash tokens h =
    subst (IsSpent hash) (sym (mark_consumed-eq-map now used tokens))
      (consumed_if-IsSpent now (λ t. str_eq t.token_hash used) hash tokens h)

pub withdraw-IsSpent :
    (now : Time) (test : AuthToken → Bool) (hash : String) (tokens : List AuthToken)
    → IsSpent hash tokens
    → IsSpent hash (withdraw now test tokens)
withdraw-IsSpent now test hash tokens h =
    subst (IsSpent hash) (sym (withdraw-eq-map now test tokens))
      (consumed_if-IsSpent now (λ t. test t && not (is_some t.consumed_at)) hash tokens h)

pub insert_token-IsSpent :
    (new : AuthToken) (hash : String) (tokens tokens' : List AuthToken)
    → insert_token new tokens ≡ ok tokens'
    → IsSpent hash tokens
    → IsSpent hash tokens'
unfolding insert_token
insert_token-IsSpent new hash tokens tokens' inserted (t, there, spent) =
    let same = (>>-eq-ok _ _ (>>-eq-ok _ _ inserted).1).1 in
    (
      t,
      ap (find_row token_key hash) (sym (ok-eq-ok _ _ same))
          ∙ find_row-append token_key hash tokens (new ∷ []) t there,
      spent,
    )

mark_consumed_own :
    (now : Time) (hash : String) (tokens : List AuthToken) (t : AuthToken)
    → find_row token_key hash tokens ≡ some t
    → IsSpent hash (mark_consumed now hash tokens)
mark_consumed_own now hash tokens t there =
    subst (IsSpent hash) (sym (mark_consumed-eq-map now hash tokens)) (
      consumed_if now (str_eq t.token_hash hash) t,
      find_row-map token_key (λ q. consumed_if now (str_eq q.token_hash hash) q) hash tokens
            (λ q. by_key now (str_eq q.token_hash hash) q)
          ∙ ap (Option.map (λ q. consumed_if now (str_eq q.token_hash hash) q)) there,
      rw ((eq_iff t.token_hash hash).1 (find_row-key token_key hash tokens t there)),
    )

-- The consumption of a token makes it spent, and of a spent one fails.
pub consume-IsSpent :
    (now : Time) (hash purpose scope user_id : String) (db db' : Accounts)
    → consume_auth_token now hash purpose scope db ≡ ok (user_id, db')
    → IsSpent hash db'.auth_tokens
consume-IsSpent now hash purpose scope user_id db db' h =
    let (t, there, allowed, same) =
      consume_auth_token-eq-ok now db hash purpose scope user_id db' h in
    subst (IsSpent hash) (sym (ap (λ (a : Accounts). a.auth_tokens) same))
      (mark_consumed_own now hash db.auth_tokens t there)

pub consume_keeps-IsSpent :
    (now : Time) (used purpose scope user_id hash : String) (db db' : Accounts)
    → consume_auth_token now used purpose scope db ≡ ok (user_id, db')
    → IsSpent hash db.auth_tokens
    → IsSpent hash db'.auth_tokens
consume_keeps-IsSpent now used purpose scope user_id hash db db' h spent =
    let (t, there, allowed, same) =
      consume_auth_token-eq-ok now db used purpose scope user_id db' h in
    subst (IsSpent hash) (sym (ap (λ (a : Accounts). a.auth_tokens) same))
      (mark_consumed-IsSpent now used hash db.auth_tokens spent)

consumer_spent :
    (now : Time) (purpose scope : String) (users : List UserRow) (t : AuthToken)
    → is_some t.consumed_at ≡ true
    → consumer_of now purpose scope users t ≡ none
unfolding consumer_of
consumer_spent now purpose scope users t spent = rw spent (ground arith)

pub consume_spent :
    (now : Time) (hash purpose scope : String) (db : Accounts)
    → IsSpent hash db.auth_tokens
    → consume_auth_token now hash purpose scope db ≡ err not_found
unfolding consume_auth_token
consume_spent now hash purpose scope db (t, there, spent) =
    rw (there, consumer_spent now purpose scope db.users t spent)
