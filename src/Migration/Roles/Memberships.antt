-- ===== src/Migration/Roles/Memberships.antt =====
-- What `FixPermittableWorkspaceRoles` makes of the memberships.
