-- ===== src/IndexServer/Session/Reply.antt =====
-- What a session writes, for `create_streaming_usearch_index` of
-- lantern_cli/src/external_index/server.rs.
use lanterndb.Prelude.{ℕ, Bool, List, [], ◌∷◌, ◌++◌, length, take}
use lanterndb.Bytes.{to_le_bytes}
use lanterndb.IndexServer.Protocol.{Connection, protocol_version, server_type}
use lanterndb.IndexServer.Rows.{UsearchIndex}
use lanterndb.IndexServer.Session.{Backend}
use lanterndb.IndexServer.Session.Written.{IsWriter}

-- How many bytes of its five short messages a session sends.
pub record Cuts : Type 0 where
  pub version_cut : ℕ
  pub type_cut : ℕ
  pub zero_cut : ℕ
  pub size_cut : ℕ
  pub length_cut : ℕ

module _ {S I : Type 0} (c : Connection S) (ix : UsearchIndex I) (b : Backend I)
    (is_open : ℕ → Bool) (written : S → List ℕ) (w : IsWriter c written) where
  -- The greeting, of whose three messages the first bytes are sent.
  abbrev greeting_bytes : ℕ → ℕ → ℕ → List ℕ
  greeting_bytes n m k =
      take n (to_le_bytes 4 protocol_version)
      ++ (take m (to_le_bytes 4 server_type) ++ take k (0 ∷ []))

  -- What a successful session has sent, over what was sent before it.
  abbrev pub session_bytes : Cuts → I → List ℕ → List ℕ
  session_bytes cuts index file =
      greeting_bytes cuts.version_cut cuts.type_cut cuts.zero_cut
      ++ (take cuts.size_cut (to_le_bytes 8 (ix.size index))
          ++ (take cuts.length_cut (to_le_bytes 8 (length file)) ++ file))
