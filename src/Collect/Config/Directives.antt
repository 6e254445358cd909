-- ===== src/Collect/Config/Directives.antt =====
-- nginxDirective and apacheDirective (internal/collect/nginx.go and apache.go): a list of
-- directives, where one that opens a block holds a list of its own.
use dtp_discovery_agent.Common.{String, ◌≡◌, refl, ap, Bool, true, false, List}

pub data Directives : Type 0 where
  no_directives : Directives
  directive :
      (name : String) (args : List String) (children : Directives) (file : String)
      → (rest : Directives) → Directives

-- append(nodes, more...)
unfoldable pub append : Directives → Directives → Directives
append no_directives ds = ds
append (directive name args children file rest) ds =
    directive name args children file (append rest ds)

abbrev pub one : String → List String → Directives → String → Directives
one name args children file = directive name args children file no_directives

abbrev pub has_children : Directives → Bool
has_children no_directives = false
has_children (directive name args children file rest) = true

pub append-no_directives : (ds : Directives) → append ds no_directives ≡ ds
unfolding append
append-no_directives no_directives = refl
append-no_directives (directive name args children file rest) =
    ap (λ t. directive name args children file t) (append-no_directives rest)

pub append_assoc : (xs ys zs : Directives) → append (append xs ys) zs ≡ append xs (append ys zs)
unfolding append
append_assoc no_directives ys zs = refl
append_assoc (directive name args children file rest) ys zs =
    ap (λ t. directive name args children file t) (append_assoc rest ys zs)
