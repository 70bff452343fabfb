-- ===== src/AdminUser/Setters.antt =====
-- server/pkg/adminuser/builder.go: `New` and the setters. A builder is the user that it fills.
use reearth_accounts.Prelude.{ℕ, String}
use reearth_accounts.AdminUser.{AdminUser}

-- `New`
abbrev pub new : AdminUser
new = record {
  approved_at = 0;
  approved_by = 0;
  email = "";
  id = 0;
  name = "";
  picture_url = "";
  role = "";
  status = "";
  updated_at = 0;
}

module _ (b : AdminUser) where
  -- `ID`
  abbrev pub with_id : ℕ → AdminUser
  with_id id = record b { id = id }

  -- `ApprovedAt`
  abbrev pub with_approved_at : ℕ → AdminUser
  with_approved_at t = record b { approved_at = t }

  -- `ApprovedBy`
  abbrev pub with_approved_by : ℕ → AdminUser
  with_approved_by by = record b { approved_by = by }

  -- `Email`
  abbrev pub with_email : String → AdminUser
  with_email email = record b { email = email }

  -- `Name`
  abbrev pub with_name : String → AdminUser
  with_name name = record b { name = name }

  -- `PictureURL`
  abbrev pub with_picture_url : String → AdminUser
  with_picture_url url = record b { picture_url = url }

  -- `Role`
  abbrev pub with_role : String → AdminUser
  with_role r = record b { role = r }

  -- `Status`
  abbrev pub with_status : String → AdminUser
  with_status s = record b { status = s }

  -- `UpdatedAt`
  abbrev pub with_updated_at : ℕ → AdminUser
  with_updated_at t = record b { updated_at = t }
