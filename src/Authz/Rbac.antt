-- ===== src/Authz/Rbac.antt =====
-- internal/domain/rbac.go and permission.go: permissions, and the names of their domains.
use elara.Prelude.{
  Bytes, codes, bytes_eq, has_prefix, not, Bool, true, false, ◌&&◌, ◌||◌, ◌++◌, length, drop,
  if◌then◌else◌,
}

abbrev pub domain_all : Bytes
domain_all = codes "*"

abbrev pub membership_domain : Bytes
membership_domain = codes "*"

abbrev pub object_all : Bytes
object_all = codes "*"

abbrev pub object_namespace : Bytes
object_namespace = codes "namespace"

abbrev pub object_token : Bytes
object_token = codes "token"

abbrev pub object_client : Bytes
object_client = codes "client"

abbrev pub object_user : Bytes
object_user = codes "user"

abbrev pub object_group : Bytes
object_group = codes "group"

abbrev pub object_webhook : Bytes
object_webhook = codes "webhook"

abbrev pub action_all : Bytes
action_all = codes "*"

abbrev pub action_create : Bytes
action_create = codes "create"

abbrev pub action_read : Bytes
action_read = codes "read"

abbrev pub action_write : Bytes
action_write = codes "write"

abbrev pub action_delete : Bytes
action_delete = codes "delete"

-- domain.Permission
pub record Permission : Type 0 where
  pub object : Bytes
  pub action : Bytes
  pub on : Bytes

-- == on permissions
abbrev pub permission_eq : Permission → Permission → Bool
permission_eq p q = bytes_eq p.object q.object && bytes_eq p.action q.action && bytes_eq p.on q.on

unfoldable pub object_grants : Bytes → Bytes → Bool
object_grants granted required = bytes_eq granted object_all || bytes_eq granted required

unfoldable pub action_grants : Bytes → Bytes → Bool
action_grants granted required =
    if bytes_eq granted action_all || bytes_eq granted required
    then true
    else if bytes_eq granted action_write && bytes_eq required action_read
    then true
    else false

abbrev pub namespace_resource_prefix : Bytes
namespace_resource_prefix = codes "namespace:"

abbrev pub group_resource_prefix : Bytes
group_resource_prefix = codes "group:"

unfoldable pub group_resource : Bytes → Bytes
group_resource name = if bytes_eq name domain_all then domain_all else group_resource_prefix ++ name

unfoldable pub namespace_resource : Bytes → Bytes
namespace_resource name =
    if bytes_eq name domain_all then domain_all else namespace_resource_prefix ++ name

unfoldable pub is_group_subject : Bytes → Bool
unfolding has_prefix
is_group_subject subject = has_prefix subject group_resource_prefix

-- strings.TrimPrefix
abbrev pub trim_prefix : Bytes → Bytes → Bytes
trim_prefix s prefix = if has_prefix s prefix then drop (length prefix) s else s

unfoldable pub group_name_from_subject : Bytes → Bytes
group_name_from_subject subject = trim_prefix subject group_resource_prefix

unfoldable pub is_user_subject : Bytes → Bool
is_user_subject subject = not (has_prefix subject group_resource_prefix)
