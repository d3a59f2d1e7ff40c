-- ===== src/Theme.antt =====
-- theme.js of
-- components/org.wso2.ppaas.manager.console/console/themes/privatePaaS: the partials that it registers
-- with Handlebars, and the helpers that read the session. The helpers `ifCond` and `UnixConvert` are
-- left out.
pub mod Helpers
pub mod Registered
pub mod Registry
pub mod Tests
use product_private_paas.Common.{
  ℕ, zero, suc, ◌-◌, Text, codes, text_eq, Bool, true, false, Option, none, some, List, [], ◌∷◌,
  ◌++◌, ◌&&◌, length, take, drop, if◌then◌else◌,
}
use product_private_paas.Objects.{Object, get_key, put_key}

-- What `File` shows of a directory.
mutual
  pub data FileTree : Type 0 where
    file : Text → Text → FileTree
    directory : Text → FileTrees → FileTree

  pub data FileTrees : Type 0 where
    no_files : FileTrees
    add_file : FileTree → FileTrees → FileTrees

abbrev pub file_name : FileTree → Text
file_name (file n c) = n
file_name (directory n fs) = n

-- `name.substring(name.length - 4) === '.hbs'`
unfoldable pub is_hbs_file : Text → Bool
is_hbs_file name = text_eq (drop (length name - 4) name) (codes ".hbs")

-- `prefix.substring(0, prefix.length - 4)`
unfoldable pub partial_name : Text → Text
partial_name prefix = take (length prefix - 4) prefix

-- `prefix ? prefix + '.' + file.getName() : file.getName()`
abbrev pub extend : Text → Text → Text
extend [] name = name
extend (c ∷ cs) name = (c ∷ cs) ++ (codes "." ++ name)

-- `register`, with the partials of Handlebars as an object: a later one of the same name replaces an
-- earlier one.
unfoldable mutual
  unfolding is_hbs_file partial_name put_key

  pub register : Text → FileTree → Object Text → Object Text
  register prefix (file n c) m = if is_hbs_file n then put_key (partial_name prefix) c m else m
  register prefix (directory n fs) m = register_all prefix fs m

  pub register_all : Text → FileTrees → Object Text → Object Text
  register_all prefix no_files m = m
  register_all prefix (add_file f fs) m =
      register_all prefix fs (register (extend prefix (file_name f)) f m)

-- The partials of the theme that this one is made from, and then its own.
unfoldable pub partials : FileTree → FileTree → Object Text
unfolding register
partials parent own = register [] own (register [] parent [])

-- `caramel.meta().session`; none is undefined or null. The tenant's id is the text of the number.
abbrev pub Session : Type 0
Session = Text → Option Text

abbrev pub or_blank : Option Text → Text
or_blank none = []
or_blank (some t) = t

unfoldable pub user : Session → Text
user session = or_blank (session (codes "USER_NAME"))

unfoldable pub domain : Session → Text
domain session = or_blank (session (codes "TENANT_DOMAIN"))

unfoldable pub tenant_id : Session → Text
tenant_id session = or_blank (session (codes "TENANT_ID"))

abbrev pub is_super : Option Text → Bool
is_super none = false
is_super (some t) = text_eq t (codes "-1234")

-- True, or the empty text.
unfoldable pub is_super_tenant : Session → Bool
is_super_tenant session = is_super (session (codes "TENANT_ID"))

-- Which of its two blocks the helper renders; the permissions may be undefined.
unfoldable pub is_allowed : Option (Object Bool) → Text → Bool
unfolding get_key
is_allowed none action = false
is_allowed (some permissions) action = elim (get_key action permissions) [
  | none ↦ false
  | some b ↦ b
]
