-- ===== src/Collect/Apache/Inheritance.antt =====
-- A certificate at an outer level reaches every site inside it.
use dtp_discovery_agent.Common.{
  String, refl, ◌≢◌, inl, inr, Option, List, [], ◌∷◌, ◌++◌, Bool-cases, All, All-append,
}
use dtp_discovery_agent.Common.Text.{equal_fold}
use dtp_discovery_agent.Collect.Config.Directives.{Directives, no_directives, directive}
use dtp_discovery_agent.Collect.Config.References.{CertificateRef, Vhost}
use dtp_discovery_agent.Collect.Apache.{
  apache_certificates, or_inherited, apache_virtual_host, walk_level, walk_apache,
}

abbrev pub Presents : Vhost → Type 0
Presents v = v.certs ≢ []

or_inherited-ne-nil :
    (path_unescape : String → Option String) (own level : List CertificateRef)
    → level ≢ []
    → or_inherited path_unescape own level ≢ []
or_inherited-ne-nil path_unescape [] level h = h
or_inherited-ne-nil path_unescape (c ∷ cs) level h = λ e. cc

append-ne-nil : {A : Type 0} (xs ys : List A) → xs ≢ [] → (xs ++ ys) ≢ []
append-ne-nil [] ys h = absurd (h refl)
append-ne-nil (x ∷ xs) ys h = λ e. cc

module _ (path_unescape : String → Option String) where
  apache_virtual_host-Presents :
      (args : List String) (children : Directives) (file : String) (level : List CertificateRef)
      → level ≢ []
      → Presents (apache_virtual_host path_unescape args children file level)
  unfolding apache_virtual_host
  apache_virtual_host-Presents args children file level h =
      or_inherited-ne-nil path_unescape (apache_certificates path_unescape children) level h

  walk_level-Presents :
      (level : List CertificateRef) (nodes : Directives)
      → level ≢ []
      → All Presents (walk_level path_unescape level nodes)
  unfolding walk_level
  walk_level-Presents level no_directives h = tt
  walk_level-Presents level (directive name args children file rest) h =
      let more = walk_level-Presents level rest h in
      elim (Bool-cases (equal_fold name "virtualhost")) [
        | inl e ↦ rw (walk_level, e) (apache_virtual_host-Presents args children file level h, more)
        | inr e ↦
            let own = apache_certificates path_unescape children in
            let inner = walk_level-Presents (level ++ own) children (append-ne-nil level own h) in
            rw (walk_level, e)
              (All-append Presents (walk_level path_unescape (level ++ own) children) _ inner more)
      ]

  -- Where the outermost level of an Apache configuration names a certificate, or what encloses it
  -- does, every virtual host in it presents one, whatever sections it stands in.
  pub walk_apache-Presents :
      (nodes : Directives) (inherited : List CertificateRef)
      → (inherited ++ apache_certificates path_unescape nodes) ≢ []
      → All Presents (walk_apache path_unescape nodes inherited)
  unfolding walk_apache
  walk_apache-Presents nodes inherited h = walk_level-Presents _ nodes h
