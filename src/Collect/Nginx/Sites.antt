-- ===== src/Collect/Nginx/Sites.antt =====
-- A tree of directives, written out as a configuration, is what the parser reads back.
use dtp_discovery_agent.Common.{
  ℕ, zero, suc, ◌≤◌, ◌<◌, String, ◌≡◌, refl, sym, ap, ◌∙◌, ◌≢◌, ◌⊎◌, inl, inr, false, some, List,
  [], ◌∷◌, ◌++◌, append-nil, append_assoc, arith, str_eq, length, All,
}
use dtp_discovery_agent.Common.Text.{of_runes}
use dtp_discovery_agent.Collect.Config.Directives.{Directives, no_directives, directive, append}
use dtp_discovery_agent.Collect.Config.Reader.{Files, ConfigBounds, ConfigReader}
use dtp_discovery_agent.Collect.Nginx.{
  Token, word, semicolon, open_brace, close_brace, Block, block, Include, simple_directive,
  parse_block, include_pattern, parse_source,
}
use dtp_discovery_agent.Collect.Nginx.Lexing.{print, IsWordy, tokenize-print}

-- The tokens of words and of directives, before those that follow.
abbrev pub put_words : List String → List Token → List Token
put_words [] post = post
put_words (w ∷ ws) post = word w ∷ put_words ws post

abbrev pub put_directives : Directives → List Token → List Token
put_directives no_directives post = post
put_directives (directive name args no_directives file rest) post =
    word name ∷ put_words args (semicolon ∷ put_directives rest post)
put_directives (directive name args (directive n ns inner f more) file rest) post =
    word name
    ∷ put_words args (
        open_brace
        ∷ put_directives (directive n ns inner f more) (close_brace ∷ put_directives rest post))

-- A tree with no include, all of one file.
abbrev pub IsOf : String → Directives → Type 0
IsOf path no_directives = Unit
IsOf path (directive name args children file rest) =
    (str_eq name "include" ≡ false) × ((file ≡ path) × (IsOf path children × IsOf path rest))

length-put_words : (ws : List String) (ts : List Token) → length ts ≤ length (put_words ws ts)
length-put_words [] ts = omega arith
length-put_words (w ∷ ws) ts = omega (arith, length-put_words ws ts)

length-put_directives :
    (ds : Directives) (ts : List Token) → length ts ≤ length (put_directives ds ts)
length-put_directives no_directives ts = omega arith
length-put_directives (directive name args no_directives file rest) ts = omega (
  arith,
  length-put_directives rest ts,
  length-put_words args (semicolon ∷ put_directives rest ts),
)
length-put_directives (directive name args (directive n ns inner f more) file rest) ts =
    let after = close_brace ∷ put_directives rest ts in
    omega (
      arith,
      length-put_directives rest ts,
      length-put_directives (directive n ns inner f more) after,
      length-put_words args (open_brace ∷ put_directives (directive n ns inner f more) after),
    )

module _ (include : String → ConfigReader → Directives × ConfigReader) (path : String) where
  abbrev reads : ℕ → List Token → List String → ConfigReader → Block × ConfigReader
  reads = parse_block include path

  words_read :
      (ws acc : List String) (ts : List Token) (f : ℕ) (r : ConfigReader)
      → length (put_words ws ts) < f
      → (g : ℕ) × (length ts ≤ g)
        × (reads f (put_words ws ts) acc r ≡ reads (suc g) ts (acc ++ ws) r)
  unfolding parse_block
  words_read [] acc ts zero r h = absurd (omega arith)
  words_read [] acc ts (suc f) r h =
      (f, omega arith, ap (λ a. reads (suc f) ts a r) (sym (append-nil acc)))
  words_read (w ∷ ws) acc ts zero r h = absurd (omega arith)
  words_read (w ∷ ws) acc ts (suc f) r h =
      let (g, k, e) = words_read ws (acc ++ w ∷ []) ts f r (omega arith) in
      (g, k, e ∙ ap (λ a. reads (suc g) ts a r) (append_assoc acc (w ∷ []) ws))

  -- The tokens end, or the block is closed.
  abbrev IsEnd : List Token → List Token → Type 0
  IsEnd ts post = ((ts ≡ []) × (post ≡ [])) ⊎ (ts ≡ close_brace ∷ post)

  end_read :
      (ts post : List Token) (f : ℕ) (r : ConfigReader)
      → length ts < f
      → IsEnd ts post
      → reads f ts [] r ≡ (block no_directives post, r)
  unfolding parse_block
  end_read ts post zero r h e = absurd (omega arith)
  end_read ts post (suc f) r h (inl (a, b)) = rw (a, b) refl
  end_read ts post (suc f) r h (inr a) = rw a refl

  simple_step :
      (name : String) (args : List String) (ts : List Token) (g : ℕ) (r : ConfigReader)
      {ds : Directives} {post : List Token}
      → str_eq name "include" ≡ false
      → reads g ts [] r ≡ (block ds post, r)
      → reads (suc g) (semicolon ∷ ts) (name ∷ args) r
        ≡ (block (directive name args no_directives path ds) post, r)
  unfolding parse_block simple_directive append
  simple_step name [] ts g r n e = rw (parse_block, e) refl
  simple_step name (a ∷ args) ts g r n e = rw (parse_block, simple_directive, n) (rw e refl)

  block_step :
      (name : String) (args : List String) (ts rest : List Token) (g : ℕ) (r : ConfigReader)
      {children ds : Directives} {post : List Token}
      → reads g ts [] r ≡ (block children rest, r)
      → reads g rest [] r ≡ (block ds post, r)
      → reads (suc g) (open_brace ∷ ts) (name ∷ args) r
        ≡ (block (directive name args children path ds) post, r)
  unfolding parse_block append
  block_step name args ts rest g r e e' = rw (parse_block, e) (rw (e, e') refl)

  put_directives_read :
      (ds : Directives) (ts post : List Token) (f : ℕ) (r : ConfigReader)
      → length (put_directives ds ts) < f
      → IsEnd ts post
      → IsOf path ds
      → reads f (put_directives ds ts) [] r ≡ (block ds post, r)
  unfolding parse_block
  put_directives_read no_directives ts post f r h e o = end_read ts post f r h e
  put_directives_read (directive name args no_directives file rest) ts post zero r h e o =
      absurd (omega arith)
  put_directives_read (directive name args no_directives file rest) ts post (suc f) r h e
        (n, (p, (c, o))) =
      let (g, k, q) =
        words_read args (name ∷ []) (semicolon ∷ put_directives rest ts) f r (omega arith) in
      let own = put_directives_read rest ts post g r (omega arith) e o in
      q
      ∙ simple_step name args (put_directives rest ts) g r n own
      ∙ ap (λ t. (block (directive name args no_directives t rest) post, r)) (sym p)
  put_directives_read (directive name args (directive m ms inner mf more) file rest) ts post zero r
        h e o =
      absurd (omega arith)
  put_directives_read (directive name args (directive m ms inner mf more) file rest) ts post (suc f)
        r h e (n, (p, (c, o))) =
      let children = directive m ms inner mf more in
      let after = close_brace ∷ put_directives rest ts in
      let (g, k, q) =
        words_read args (name ∷ []) (open_brace ∷ put_directives children after) f r
          (omega arith) in
      let l = length-put_directives children after in
      let nested =
        put_directives_read (directive m ms inner mf more) after (put_directives rest ts) g r
          (omega arith) (inr refl) c in
      let own = put_directives_read rest ts post g r (omega (arith, l)) e o in
      q
      ∙ block_step name args (put_directives children after) (put_directives rest ts) g r nested own
      ∙ ap (λ t. (block (directive name args children t rest) post, r)) (sym p)

abbrev HasWords : List String → Type 0
HasWords [] = Unit
HasWords (w ∷ ws) = (w ≢ "") × HasWords ws

-- No name or argument is empty.
abbrev pub IsSpelled : Directives → Type 0
IsSpelled no_directives = Unit
IsSpelled (directive name args children file rest) =
    HasWords (name ∷ args) × (IsSpelled children × IsSpelled rest)

put_words-IsWordy :
    (ws : List String) (ts : List Token)
    → HasWords ws
    → All IsWordy ts
    → All IsWordy (put_words ws ts)
put_words-IsWordy [] ts h hs = hs
put_words-IsWordy (w ∷ ws) ts h hs = (h.0, put_words-IsWordy ws ts h.1 hs)

put_directives-IsWordy :
    (ds : Directives) (ts : List Token)
    → IsSpelled ds
    → All IsWordy ts
    → All IsWordy (put_directives ds ts)
put_directives-IsWordy no_directives ts s h = h
put_directives-IsWordy (directive name args no_directives file rest) ts (w, (c, s)) h =
    (w.0, put_words-IsWordy args _ w.1 (tt, put_directives-IsWordy rest ts s h))
put_directives-IsWordy (directive name args (directive n ns inner f more) file rest) ts (w, (c, s))
      h =
    (
      w.0,
      put_words-IsWordy args _ w.1 (
        tt,
        put_directives-IsWordy (directive n ns inner f more) _ c
            (tt, put_directives-IsWordy rest ts s h),
      ),
    )

-- The text of a configuration file with these directives.
abbrev pub written : Directives → String
written ds = of_runes (print (put_directives ds []))

-- A configuration file written from a tree of directives, of any names and arguments but empty ones
-- and with no include, is parsed to that tree, and the reader is left as it was.
pub parse_source-written :
    (files : Files) (b : ConfigBounds) (parse : Include) (path : String) (r : ConfigReader)
    (ds : Directives)
    → IsOf path ds
    → IsSpelled ds
    → parse_source files b parse path (some (written ds), r) ≡ (inr ds, r)
unfolding parse_source
parse_source-written files b parse path r ds o s =
    let tokens = put_directives ds [] in
    let include = include_pattern files b parse path in
    let read_back =
      put_directives_read include path ds [] [] (suc (length tokens)) r (omega arith)
        (inl (refl, refl)) o in
    let lexed = tokenize-print tokens (put_directives-IsWordy ds [] s tt) in
    rw (parse_source, lexed) (rw read_back refl)
