-- ===== src/Collect/Nginx/Inheritance.antt =====
-- A certificate at an outer level reaches every site inside it.
use dtp_discovery_agent.Common.{
  String, refl, ◌≢◌, inl, inr, Option, List, [], ◌∷◌, ◌++◌, str_eq, Bool-cases, All, All-append,
}
use dtp_discovery_agent.Collect.Config.Directives.{Directives, no_directives, directive}
use dtp_discovery_agent.Collect.Config.References.{CertificateRef, Vhost}
use dtp_discovery_agent.Collect.Nginx.{
  nginx_certificates, or_inherited, nginx_server, walk_level, walk_nginx,
}

abbrev pub Presents : Vhost → Type 0
Presents v = v.certs ≢ []

or_inherited-ne-nil :
    (path_unescape : String → Option String) (own level : List CertificateRef)
    → level ≢ []
    → or_inherited path_unescape own level ≢ []
or_inherited-ne-nil path_unescape [] level h = h
or_inherited-ne-nil path_unescape (c ∷ cs) level h = λ e. cc

append-ne-nil : {A : Type 0} (xs ys : List A) → xs ≢ [] → (xs ++ ys) ≢ []
append-ne-nil [] ys h = absurd (h refl)
append-ne-nil (x ∷ xs) ys h = λ e. cc

module _ (path_unescape : String → Option String) where
  nginx_server-Presents :
      (children : Directives) (file : String) (level : List CertificateRef)
      → level ≢ []
      → Presents (nginx_server path_unescape children file level)
  unfolding nginx_server
  nginx_server-Presents children file level h =
      or_inherited-ne-nil path_unescape (nginx_certificates path_unescape children) level h

  walk_level-Presents :
      (level : List CertificateRef) (nodes : Directives)
      → level ≢ []
      → All Presents (walk_level path_unescape level nodes)
  unfolding walk_level
  walk_level-Presents level no_directives h = tt
  walk_level-Presents level (directive name args children file rest) h =
      let more = walk_level-Presents level rest h in
      elim (Bool-cases (str_eq name "server")) [
        | inl e ↦ rw (walk_level, e) (nginx_server-Presents children file level h, more)
        | inr e ↦
            let own = nginx_certificates path_unescape children in
            let inner = walk_level-Presents (level ++ own) children (append-ne-nil level own h) in
            rw (walk_level, e)
              (All-append Presents (walk_level path_unescape (level ++ own) children) _ inner more)
      ]

  -- Where the outermost level of an nginx configuration names a certificate, or what encloses it
  -- does, every site in it presents one, at whatever depth it stands.
  pub walk_nginx-Presents :
      (nodes : Directives) (inherited : List CertificateRef)
      → (inherited ++ nginx_certificates path_unescape nodes) ≢ []
      → All Presents (walk_nginx path_unescape nodes inherited)
  unfolding walk_nginx
  walk_nginx-Presents nodes inherited h = walk_level-Presents _ nodes h
