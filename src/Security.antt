-- ===== src/Security.antt =====
-- packages/security/security.go: the files of the certificate authority and of the server's certificate;
-- packages/security/utils.go: hashes of tokens. Disk and cryptography answer through `Disk`.
use pulseha.Base.{String, Bool, not, ◌||◌, Option, none, some, str_eq, if◌then◌else◌}
use pulseha.Exec.{pure, exit, gets, modify, skip, deref, ◌>>=◌, ◌>>◌}
use pulseha.Config.{Error}
use pulseha.World.{Daemon, Trace, stored, folder_made, log_event}

pub record Disk : Type 0 where
  -- os.Stat finds something
  pub exists : Trace → String → Bool
  pub read : Trace → String → Option String
  -- the file can be created or opened for writing
  pub can_create : Trace → String → Bool
  -- rsa.GenerateKey, as the text of the key's PEM block
  pub new_key : Trace → Option String
  -- a certificate for an address and a key, signed with a certificate and a key; the first has no parent
  pub own_certificate : Trace → String → String → Option String
  pub certificate : Trace → String → String → String → String → Option String
  -- pem.Decode, and whether the block's bytes parse
  pub pem_block : String → Option String
  pub parse_certificate : String → Bool
  pub parse_key : String → Bool

abbrev pub cert_dir : String
cert_dir = "/etc/pulseha/certs/"

abbrev pub ca_crt : String
ca_crt = "/etc/pulseha/certs/ca.crt"

abbrev pub ca_key : String
ca_key = "/etc/pulseha/certs/ca.key"

abbrev pub server_crt : String
server_crt = "/etc/pulseha/certs/pulseha.crt"

abbrev pub server_key : String
server_key = "/etc/pulseha/certs/pulseha.key"

-- SHA256StringValidation, over GenerateSHA256Hash
abbrev pub sha256_matches : (String → String) → String → String → Bool
sha256_matches sha256 text hash = str_eq hash (sha256 text)

module _ (disk : Disk) where
  -- CreateFolder, for the directory of the certificates
  unfoldable pub create_folder : Daemon Unit
  create_folder = do
    there ← gets (λ w. disk.exists w.trace cert_dir)
    if there then skip else modify (log_event (folder_made cert_dir))

  -- WriteCertFile, WriteKeyFile and WriteKeyFileFromRSAKey, for a whole path
  unfoldable pub store_file : String → String → Daemon Unit
  store_file path content = do
    able ← gets (λ w. disk.can_create w.trace path)
    if able then modify (log_event (stored path content)) else exit

  -- Fatal when there is none
  or_fatal : Option String → Daemon String
  or_fatal (some x) = pure x
  or_fatal none = exit

  -- GenerateCACert
  unfoldable pub generate_ca_cert : String → Daemon Unit
  unfolding or_fatal
  generate_ca_cert ip = do
    create_folder
    made ← gets (λ w. disk.new_key w.trace)
    key ← or_fatal made
    signed ← gets (λ w. disk.own_certificate w.trace ip key)
    cert ← or_fatal signed
    store_file ca_crt cert
    store_file ca_key key

  -- GenerateCerts
  unfoldable pub generate_certs : String → String → String → Daemon Unit
  unfolding or_fatal
  generate_certs ip parent parent_key = do
    create_folder
    made ← gets (λ w. disk.new_key w.trace)
    key ← or_fatal made
    signed ← gets (λ w. disk.certificate w.trace ip key parent parent_key)
    cert ← or_fatal signed
    store_file server_crt cert
    store_file server_key key

  -- Both files are read and not empty: a text without a PEM block is a nil pointer, and one that does not
  -- parse ends the process.
  sign_with : String → Option String → Option String → Daemon Error
  sign_with ip (some cert) (some key) =
      if str_eq key "" || str_eq cert "" then pure (some "invalid ca.cert ca.key values") else (do
        block ← deref (disk.pem_block cert)
        if not (disk.parse_certificate block) then exit else skip
        key_block ← deref (disk.pem_block key)
        if not (disk.parse_key key_block) then exit else skip
        generate_certs ip block key_block
        pure none)
  sign_with ip (some cert) none = pure (some "unable to load file: /etc/pulseha/certs/ca.key")
  sign_with ip none key = pure (some "unable to load file: /etc/pulseha/certs/ca.crt")

  -- GenTLSKeys
  unfoldable pub gen_tls_keys : String → Daemon Error
  unfolding sign_with
  gen_tls_keys ip = do
    create_folder
    crt_there ← gets (λ w. disk.exists w.trace ca_crt)
    key_there ← gets (λ w. disk.exists w.trace ca_key)
    cert ← gets (λ w. disk.read w.trace ca_crt)
    key ← gets (λ w. disk.read w.trace ca_key)
    if not crt_there || not key_there
        then pure (some "unable to generate TLS keys as ca.crt/ca.key are missing")
        else sign_with ip cert key
