-- ===== src/Service/Users.antt =====
-- apps/service/src/store.ts: the users, and the identities of apps/service/src/auth.ts.
use crosscode.Prelude.{Bool, Option, none, some, or_else, is_some, not}
use crosscode.Prelude.Text.{Text}
use crosscode.Prelude.Dict.{Dict, lookup, insert}

pub record GithubIdentity : Type 0 where
  pub id : Text
  pub login : Text

-- What a verified access token says.
pub record SupabaseAccessClaims : Type 0 where
  pub user_id : Text
  pub email : Option Text
  pub github : Option GithubIdentity
  pub expires_at : Text

pub record UserRow : Type 0 where
  pub github_id : Option Text
  pub github_login : Option Text
  pub email : Option Text

-- `COALESCE(excluded.…, users.…)`
coalesced : UserRow → Option UserRow → UserRow
coalesced row none = row
coalesced row (some old) = record {
  github_id = or_else row.github_id old.github_id;
  github_login = or_else row.github_login old.github_login;
  email = or_else row.email old.email;
}

-- The table after it, and whether the row is new.
unfoldable pub upsert_user : Text → UserRow → Dict UserRow → Bool × Dict UserRow
unfolding coalesced
upsert_user id row table =
    (not (is_some (lookup id table)), insert id (coalesced row (lookup id table)) table)
