-- ===== src/Documents/Samples.antt =====
-- Texts that write a number as so many characters, and what the tests store.
use Prim.Native.String.{[] as no_text, ◌∷◌ as ◌◁◌}
use reearth_accounts.Prelude.{
  ℕ, zero, suc, ◌<◌, ◌≡◌, refl, true, false, ◌≢◌, String, Option, none, some, List, [], ◌∷◌, map,
  arith,
}
use reearth_accounts.AdminUser.{AdminUser, MailText}
use reearth_accounts.Permittable.{Permittable}
use reearth_accounts.User.Account.{User}
use reearth_accounts.Workspace.Entity.{Workspace}
use reearth_accounts.Workspace.Member.{Member}
use reearth_accounts.Documents.Mongo.Hash.{WorkspaceMemberDocument}
use reearth_accounts.Documents.Texts.{Texts, IsTexts, HasSetIds}

unfoldable pub strokes : ℕ → String
strokes zero = ""
strokes (suc n) = "1" ◁ strokes n

unfoldable pub count : String → ℕ
count no_text = 0
count (c ◁ s) = suc (count s)

unfoldable pub read : String → Option ℕ
unfolding count
read no_text = none
read (c ◁ s) = some (suc (count s))

unfoldable pub read_lang : String → Option ℕ
unfolding count
read_lang no_text = none
read_lang (c ◁ s) = some (count s)

abbrev both : Option ℕ → Option (List ℕ) → Option (List ℕ)
both none is = none
both (some i) none = none
both (some i) (some is) = some (i ∷ is)

unfoldable pub read_all : List String → Option (List ℕ)
unfolding read
read_all [] = some []
read_all (s ∷ l) = both (read s) (read_all l)

count-strokes : (n : ℕ) → count (strokes n) ≡ n
unfolding count strokes
count-strokes zero = refl
count-strokes (suc n) = omega (arith, count-strokes n)

read-strokes : (i : ℕ) → 0 < i → read (strokes i) ≡ some i
unfolding read strokes
read-strokes zero h = absurd (omega arith)
read-strokes (suc n) h = rw (count-strokes n) refl

read_lang-strokes : (l : ℕ) → read_lang (strokes (suc l)) ≡ some l
unfolding read_lang strokes
read_lang-strokes l = rw (count-strokes l) refl

read_all-map : (l : List ℕ) → HasSetIds l → read_all (map strokes l) ≡ some l
unfolding read_all
read_all-map [] h = refl
read_all-map (i ∷ l) h = rw (read-strokes i h.0, read_all-map l h.1) refl

strokes_ne : (i : ℕ) → 0 < i → strokes i ≢ ""
unfolding strokes
strokes_ne zero h = absurd (omega arith)
strokes_ne (suc n) h = cc

abbrev pub texts : Texts
texts = record {
  id_text = strokes;
  id_from = read;
  ids_from = read_all;
  lang_text = λ l. strokes (suc l);
  lang_parse = read_lang;
  lower = λ s. s;
  split = λ s. s ∷ "x" ∷ [];
}

pub texts-IsTexts : IsTexts texts
texts-IsTexts = record {
  id_from-id_text = read-strokes;
  ids_from-map = read_all-map;
  id_text_ne = strokes_ne;
  lang_parse-lang_text = read_lang-strokes;
  lang_text_ne = λ l. strokes_ne (suc l) (omega arith);
}

-- A permittable 2 of the user 1, with the role 3, also in the workspace 4
abbrev pub permittable : Permittable
permittable = record {
  id = 2;
  user_id = 1;
  role_ids = 3 ∷ [];
  workspace_roles = record { id = 4; role_id = 3 } ∷ [];
  updated_at = 5;
}

-- The user 1 of the workspace 4, with an identity and a dark theme
abbrev pub user : User
user = record {
  id = 1;
  name = "n";
  alias = "a";
  email = "e@x.y";
  latest_logout_at = 0;
  metadata = record { photo_url = "p"; description = "d"; website = "w"; lang = 7; theme = "dark" };
  password = 65 ∷ [];
  workspace = 4;
  auths = record { provider = "s"; sub = "s" } ∷ [];
  verification = some (record { verified = true; code = "c"; expiration = 9 });
  password_reset = none;
  host = "h";
  updated_at = 5;
  deleted_at = none;
  created_at = some 2;
}

-- An approved admin user 6
abbrev pub admin : AdminUser
admin = record {
  approved_at = 8;
  approved_by = 7;
  email = "e@x.y";
  id = 6;
  name = "n";
  picture_url = "";
  role = "viewer";
  status = "approved";
  updated_at = 8;
}

abbrev pub mail : MailText
mail = record { parse_address = λ s. some s; lower = λ s. s; trim = λ s. s }

-- The member 2, invited by 1
abbrev pub member : Member
member = record { role = "reader"; disabled = false; invited_by = 1; host = "h" }

-- The workspace 4 without a creator, of the users 1 and 2, with an integration
abbrev pub workspace : Workspace
workspace = record {
  id = 4;
  name = "n";
  alias = "a";
  email = "";
  metadata = record {
    description = "d";
    website = "";
    location = "";
    billing_email = "";
    photo_url = "";
  };
  members = record {
    users = (1, record member { role = "owner" }) ∷ (2, member) ∷ [];
    integrations = (3, member) ∷ [];
    fixed = false;
  };
  policy = some "p";
  created_at = some 2;
  created_by = none;
  updated_at = 5;
  deleted_at = none;
}

abbrev pub document : WorkspaceMemberDocument
document = record { role = "owner"; invited_by = "1"; disabled = false }
