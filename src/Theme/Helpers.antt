-- ===== src/Theme/Helpers.antt =====
-- The helpers of theme.js that read the session.
use product_private_paas.Common.{Text, codes, text_eq, ◌≡◌, refl, Option, none, some}
use product_private_paas.Theme.{Session, or_blank, is_super, tenant_id, is_super_tenant}

is_super-or_blank : (o : Option Text) → is_super o ≡ text_eq (or_blank o) (codes "-1234")
unfolding text_eq
is_super-or_blank none = refl
is_super-or_blank (some t) = refl

-- `isSuperTenant` is true exactly in the sessions for which `tenantID` shows -1234; without a tenant,
-- `tenantID` shows nothing and `isSuperTenant` is false.
pub is_super_tenant-tenant_id :
    (session : Session) → is_super_tenant session ≡ text_eq (tenant_id session) (codes "-1234")
unfolding is_super_tenant tenant_id
is_super_tenant-tenant_id session = is_super-or_blank (session (codes "TENANT_ID"))
