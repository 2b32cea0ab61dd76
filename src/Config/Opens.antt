-- ===== src/Config/Opens.antt =====
-- A configuration that a URL gives, and the connection that is opened with it.
use roxy.Base.Bytes.{Bytes}
use roxy.Address.{Address}
use roxy.Aead.Writer
use roxy.Aead.Reader
use roxy.Proxy.{Endpoint}
use roxy.Config.{F32, ServerConfig}
use roxy.Config.Holds.{Holds}

abbrev pub endpoint : (f : F32) → ServerConfig f → Endpoint
endpoint f c = record { addr = c.addr; kind = c.method; key = c.enc_key }
