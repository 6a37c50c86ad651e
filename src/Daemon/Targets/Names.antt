-- ===== src/Daemon/Targets/Names.antt =====
-- The names of targets, for lantern_cli/src/daemon/types.rs.
use lanterndb.Prelude.{
  ℕ, ◌≤◌, ◌≡◌, ◌≢◌, refl, ap, ◌∙◌, sym, Bool, true, false, some, List, [], ◌∷◌, ◌++◌, ◌==◌, arith,
  length, take, All, append_assoc, append-nil, ok, drop-append,
}
use lanterndb.Daemon.Targets.{at_sign, slash, last_part, find_slash, from_uri, hosted_by, named_by}

-- Without the byte.
abbrev pub Lacks : ℕ → List ℕ → Type 0
Lacks c = All (λ d. d ≢ c)

last_part-host :
    (part host : List ℕ) → Lacks at_sign host → last_part true part host ≡ some (part ++ host)
unfolding last_part
last_part-host part [] h = ap some (sym (append-nil part))
last_part-host part (c ∷ host) h =
    ground (arith, last_part-host (part ++ c ∷ []) host h.1, append_assoc part (c ∷ []) host)

last_part-uri :
    (seen : Bool) (part user host : List ℕ)
    → Lacks at_sign host
    → last_part seen part (user ++ at_sign ∷ host) ≡ some host
unfolding last_part
last_part-uri false part [] host h = last_part-host [] host h
last_part-uri true part [] host h = last_part-host [] host h
last_part-uri false part (c ∷ user) host h = last_part-uri (c == at_sign) _ user host h
last_part-uri true part (c ∷ user) host h = last_part-uri true _ user host h

find_slash-host :
    (host db : List ℕ) → Lacks slash host → find_slash (host ++ slash ∷ db) ≡ some (length host)
unfolding find_slash
find_slash-host [] db h = refl
find_slash-host (c ∷ host) db h = ground (arith, find_slash-host host db h.1)

-- A target `user@host/database`, where the user may contain anything, is named by the first five
-- bytes after the last `@`, and by its database: when these are five at least.
pub from_uri_name :
    (user host db : List ℕ)
    → Lacks at_sign (host ++ slash ∷ db)
    → Lacks slash host
    → 5 ≤ length (host ++ slash ∷ db)
    → from_uri (user ++ at_sign ∷ (host ++ slash ∷ db))
      ≡ ok (record {
        uri = user ++ at_sign ∷ (host ++ slash ∷ db);
        name = take 5 (host ++ slash ∷ db) ++ slash ∷ db;
      })
unfolding from_uri
from_uri_name user host db no_at no_slash long =
    let tail = host ++ slash ∷ db in
    let url = user ++ at_sign ∷ tail in
    ap (hosted_by url) (last_part-uri false [] user tail no_at)
    ∙ (ap (named_by url tail) (find_slash-host host db no_slash)
        ∙ ground (arith, drop-append (length host) host (slash ∷ db) refl))
