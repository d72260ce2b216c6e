-- ===== src/Web/I18n/English.antt =====
-- packages/web/src/i18n/en.ts: the English catalog.
use Prim.Native.String.{String}
use desk_ssh.Base.{List, [], ◌∷◌}

unfoldable pub en : List (String × String)
en =
    ("app.tagline", "A graphical desktop over plain SSH")
    ∷ ("login.title", "Connect to a server")
    ∷ ("login.host", "Host / IP")
    ∷ ("login.port", "Port")
    ∷ ("login.username", "Username")
    ∷ ("login.authMethod", "Authentication")
    ∷ ("login.auth.password", "Password")
    ∷ ("login.auth.key", "Private key (PEM)")
    ∷ ("login.password", "Password")
    ∷ ("login.keyFile", "Key file")
    ∷ ("login.keyHint", "Paste your private key here")
    ∷ ("login.key.loadFile", "Load file")
    ∷ ("login.key.paste", "Paste key")
    ∷ ("login.key.loaded", "Key loaded: {name}")
    ∷ ("login.key.loadedGeneric", "Key loaded")
    ∷ ("login.passphrase", "Passphrase (optional)")
    ∷ ("login.submit", "Connect")
    ∷ ("login.connecting", "Connecting…")
    ∷ ("login.error", "Could not connect")
    ∷ ("hostkey.title", "Verify host authenticity")
    ∷ (
      "hostkey.body",
      "The server's identity is not yet known. Make sure this fingerprint matches the server you trust before continuing.",
    )
    ∷ ("hostkey.fingerprint", "Fingerprint")
    ∷ ("hostkey.cancel", "Cancel")
    ∷ ("hostkey.confirm", "Trust and connect")
    ∷ ("connected.title", "Connected")
    ∷ ("connected.os", "Operating system")
    ∷ ("connected.home", "Home")
    ∷ ("connected.listing", "Home directory")
    ∷ ("connected.transparency", "Commands run (transparency)")
    ∷ ("connected.disconnect", "Disconnect")
    ∷ ("connected.empty", "Empty directory")
    ∷ ("desktop.start", "Apps")
    ∷ ("desktop.apps", "Apps")
    ∷ ("desktop.disconnect", "Disconnect")
    ∷ ("desktop.comingSoon", "Coming soon")
    ∷ ("apps.files", "Files")
    ∷ ("apps.system", "System info")
    ∷ ("apps.history", "Command history")
    ∷ ("apps.terminal", "Terminal")
    ∷ ("apps.monitor", "System monitor")
    ∷ ("apps.editor", "Stallman")
    ∷ ("apps.docs", "Documents")
    ∷ ("apps.viewer", "Image viewer")
    ∷ ("apps.pdf", "PDF viewer")
    ∷ ("apps.credits", "About & credits")
    ∷ ("credits.license", "DeskSSH is free software, licensed under")
    ∷ ("credits.thirdParty", "Built with these open-source projects")
    ∷ ("credits.thanks", "Thank you to the open-source community.")
    ∷ ("system.os", "OS")
    ∷ ("system.host", "Host")
    ∷ ("system.home", "Home")
    ∷ ("system.kernel", "Kernel")
    ∷ ("system.uptime", "Uptime")
    ∷ ("system.packages", "Packages")
    ∷ ("system.shell", "Shell")
    ∷ ("system.cpu", "CPU")
    ∷ ("system.memory", "Memory")
    ∷ ("system.disk", "Disk (/)")
    ∷ ("system.ip", "Local IP")
    ∷ ("system.unavailable", "System info unavailable")
    ∷ ("system.transparency", "Commands run (transparency)")
    ∷ ("history.title", "Command history")
    ∷ ("history.count", "{n} commands")
    ∷ ("history.refresh", "Refresh")
    ∷ ("history.empty", "No commands run yet")
    ∷ ("monitor.uptime", "Uptime")
    ∷ ("monitor.load", "Load average (1 / 5 / 15 min)")
    ∷ ("monitor.memory", "Memory")
    ∷ ("monitor.memoryUsage", "{used} of {total} ({pct}%)")
    ∷ ("monitor.unavailable", "Metrics unavailable")
    ∷ ("monitor.processes", "Processes")
    ∷ ("monitor.filter", "Filter…")
    ∷ ("monitor.refresh", "Refresh")
    ∷ ("monitor.pid", "PID")
    ∷ ("monitor.user", "User")
    ∷ ("monitor.command", "Command")
    ∷ ("monitor.stop", "Stop (SIGTERM)")
    ∷ ("monitor.reload", "Reload (SIGHUP)")
    ∷ ("monitor.forceStop", "Force stop (SIGKILL)")
    ∷ ("monitor.noProcesses", "No matching processes")
    ∷ ("monitor.service", "Service:")
    ∷ ("monitor.serviceName", "name, e.g. nginx")
    ∷ ("monitor.svcStart", "Start")
    ∷ ("monitor.svcStop", "Stop")
    ∷ ("monitor.svcRestart", "Restart")
    ∷ ("monitor.actionFailed", "Action failed")
    ∷ ("monitor.confirmSignalTitle", "Signal this process?")
    ∷ ("monitor.confirmSignalBody", "Send SIG{signal} to PID {pid} ({command})?")
    ∷ ("monitor.confirmServiceTitle", "Control this service?")
    ∷ ("monitor.confirmServiceBody", "{action} the service \"{name}\"?")
    ∷ ("monitor.cancel", "Cancel")
    ∷ ("monitor.confirm", "Confirm")
    ∷ ("elev.modal1Title", "Administrator authentication")
    ∷ (
      "elev.modal1Body",
      "This action needs administrator privileges. Enter your password to authorize it.",
    )
    ∷ ("elev.password", "Password")
    ∷ ("elev.username", "Username")
    ∷ ("elev.authorize", "Authorize")
    ∷ ("elev.cancel", "Cancel")
    ∷ ("elev.failed", "Authentication failed or action not permitted")
    ∷ ("elev.noPermTitle", "Insufficient permissions")
    ∷ ("elev.noPermBody", "Your account does not have permission to perform this action.")
    ∷ (
      "elev.noEscalation",
      "Your account lacks permission and this host doesn't allow privilege escalation, so the action can't be completed.",
    )
    ∷ ("elev.haveAdmin", "I have administrator credentials")
    ∷ ("elev.understood", "Understood")
    ∷ ("elev.modal2Title", "Authenticate as another user")
    ∷ (
      "elev.modal2Body",
      "Enter the username and password of a privileged account (or root) to run this action.",
    )
    ∷ ("files.up", "Up")
    ∷ ("files.empty", "Empty directory")
    ∷ ("files.error", "Could not list directory")
    ∷ ("files.refresh", "Refresh")
    ∷ ("files.newFolder", "New folder")
    ∷ ("files.newFile", "New file")
    ∷ ("files.open", "Open")
    ∷ ("files.openWith", "Open with")
    ∷ ("files.openInTerminal", "Open in terminal")
    ∷ ("files.download", "Download to my computer")
    ∷ ("files.upload", "Upload from my computer")
    ∷ ("files.conflictTitle", "This name already exists")
    ∷ ("files.conflictBody", "\"{name}\" already exists here. Replace it, or keep both?")
    ∷ ("files.replace", "Replace")
    ∷ ("files.keepBoth", "Keep both")
    ∷ ("files.rename", "Rename")
    ∷ ("files.cut", "Cut")
    ∷ ("files.copy", "Copy")
    ∷ ("files.paste", "Paste")
    ∷ ("files.delete", "Delete")
    ∷ ("files.name", "Name")
    ∷ ("files.cancel", "Cancel")
    ∷ ("files.create", "Create")
    ∷ ("files.save", "Save")
    ∷ ("files.actionError", "Action failed")
    ∷ ("files.downloadError", "Could not download file")
    ∷ ("files.deleteTitle", "Delete this item?")
    ∷ ("files.deleteBody", "\"{name}\" will be permanently removed from the server.")
    ∷ ("editor.untitled", "No file open")
    ∷ ("editor.save", "Save")
    ∷ ("editor.saved", "Saved")
    ∷ ("editor.saving", "Saving…")
    ∷ ("editor.unsaved", "Unsaved changes")
    ∷ ("editor.loadError", "Could not open file")
    ∷ ("editor.saveError", "Could not save")
    ∷ ("editor.loading", "Loading editor…")
    ∷ ("editor.binary", "This file does not look like text and was not opened.")
    ∷ ("docs.bold", "Bold")
    ∷ ("docs.italic", "Italic")
    ∷ ("docs.strike", "Strikethrough")
    ∷ ("docs.code", "Inline code")
    ∷ ("docs.h1", "Heading 1")
    ∷ ("docs.h2", "Heading 2")
    ∷ ("docs.bullet", "Bullet list")
    ∷ ("docs.ordered", "Numbered list")
    ∷ ("docs.quote", "Quote")
    ∷ ("docs.undo", "Undo")
    ∷ ("docs.redo", "Redo")
    ∷ ("docs.save", "Save")
    ∷ ("docs.saving", "Saving…")
    ∷ ("docs.saved", "Saved")
    ∷ ("docs.unsaved", "Unsaved changes")
    ∷ ("docs.loadError", "Could not open document")
    ∷ ("docs.saveError", "Could not save")
    ∷ ("docs.binary", "This file does not look like text and was not opened.")
    ∷ ("viewer.empty", "No image open")
    ∷ ("viewer.openHint", "Open an image from the file manager.")
    ∷ ("viewer.error", "Could not open image")
    ∷ ("viewer.fit", "Fit")
    ∷ ("viewer.actualSize", "Actual size")
    ∷ ("pdf.empty", "No PDF open")
    ∷ ("pdf.openHint", "Open a PDF from the file manager.")
    ∷ ("pdf.error", "Could not open PDF")
    ∷ ("pdf.page", "Page {n} / {total}")
    ∷ ("pdf.prev", "Previous page")
    ∷ ("pdf.next", "Next page")
    ∷ ("pdf.zoomIn", "Zoom in")
    ∷ ("pdf.zoomOut", "Zoom out")
    ∷ []
