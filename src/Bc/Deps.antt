-- ===== src/Bc/Deps.antt =====
-- What the messages take from other code: the ciphers, MD5, and the XML of quick_xml. What is
-- written starts with the XML declaration, so that it is not empty.
use neolink.Base.{◌≤◌, length, Option}
use neolink.Base.Words.{Bytes}
use neolink.Bc.Credentials.{Md5}
use neolink.Bc.Crypto.{AesCfb}
use neolink.Bc.Xml.{BcXml}
use neolink.Bc.Xml.Login.{Extension}

pub record BcDeps : Type 0 where
  pub cfb : AesCfb
  pub md5 : Md5
  pub ext_serialize : Extension → Bytes
  pub ext_try_parse : Bytes → Option Extension
  pub xml_serialize : BcXml → Bytes
  pub xml_try_parse : Bytes → Option BcXml
  pub ext_serialize-some : (e : Extension) → 1 ≤ length (ext_serialize e)
  pub xml_serialize-some : (x : BcXml) → 1 ≤ length (xml_serialize x)
