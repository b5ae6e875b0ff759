-- ===== src/Provisioners.antt =====
-- src/cert_publisher/provisioners/: the code that talks to a target host.
pub mod Dialogue
pub mod Xml
pub mod Wsman
pub mod Idrac8
pub mod Trace
pub mod Unattended
pub mod Powershell
pub mod WinrmSession
pub mod Winrm
pub mod Build
mod Samples
pub mod Ssh
pub mod Credentials
mod Examples
